-- ===== src/Scheduler/Shutdown.antt =====
-- `shutdown` against the tasks that are live.
use family_assistant_kernel.Prelude.{
  ℕ, ◌≡◌, refl, ◌∙◌, false, str_eq, eq_iff, String, none, List, [], ◌∷◌, arith, Bool-cases, inl,
  inr, All, any, if◌then◌else◌,
}
use family_assistant_kernel.Scheduler.Tasks.{
  Task, Loop, lookup, cancel_task, cancel_all, keys_of, shutdown,
}
use family_assistant_kernel.Scheduler.Tasks.Tracked.{
  str_eq_refl, is_live, IsTracked, Tracked, lookup-pop, cancel_task-registry, cancel_task-Tracked,
}

lookup-cancel_all :
    (j : String) (keys : List String) (s : Loop)
    → lookup j (cancel_all keys s).registry
      ≡ (if any (λ k. str_eq k j) keys then none else lookup j s.registry)
unfolding cancel_all
lookup-cancel_all j [] s = refl
lookup-cancel_all j (k ∷ keys) s =
    rw
      (
        lookup-cancel_all j keys (cancel_task k s),
        cancel_task-registry k s,
        lookup-pop j k s.registry,
      )
      (ground arith)

cancel_all-Tracked : (keys : List String) (s : Loop) → Tracked s → Tracked (cancel_all keys s)
unfolding cancel_all
cancel_all-Tracked [] s h = h
cancel_all-Tracked (k ∷ keys) s h =
    cancel_all-Tracked keys (cancel_task k s) (cancel_task-Tracked k s h)

covered :
    (j : String) (registry : List (String × ℕ))
    → (if any (λ k. str_eq k j) (keys_of registry) then none else lookup j registry) ≡ none
unfolding lookup
covered j [] = refl
covered j ((k, id) ∷ registry) = elim (Bool-cases (str_eq j k)) [
  | inl same ↦ rw ((eq_iff j k).0 same) (ground (arith, str_eq_refl k))
  | inr differ ↦ ground (arith, differ, covered j registry)
]

idle-All :
    (registry : List (String × ℕ)) (ts : List Task)
    → ((j : String) → lookup j registry ≡ none)
    → All (IsTracked registry) ts
    → All (λ t. is_live t ≡ false) ts
idle-All registry [] gone h = tt
idle-All registry (t ∷ ts) gone h = (
  elim (Bool-cases (is_live t)) [ inl live ↦ cc (gone t.key, h.0 live) | inr idle ↦ idle ],
  idle-All registry ts gone h.1,
)

-- When the registry has every live task, `shutdown` leaves no task that runs on and was not cancelled,
-- and an empty registry.
pub shutdown-idle :
    (s : Loop)
    → Tracked s
    → All (λ t. is_live t ≡ false) (shutdown s).tasks
      × ((j : String) → lookup j (shutdown s).registry ≡ none)
unfolding shutdown
shutdown-idle s h =
    let gone : (j : String) → lookup j (cancel_all (keys_of s.registry) s).registry ≡ none =
      λ j. lookup-cancel_all j (keys_of s.registry) s ∙ covered j s.registry in
    (idle-All _ _ gone (cancel_all-Tracked (keys_of s.registry) s h), gone)
