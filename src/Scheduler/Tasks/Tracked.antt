-- ===== src/Scheduler/Tasks/Tracked.antt =====
-- Which running tasks the registry knows, so that `cancel_task` and `shutdown` reach them.
use family_assistant_kernel.Prelude.{
  ℕ, ◌≡◌, refl, sym, Bool, true, false, not, ◌&&◌, str_eq, eq_iff, String, Option, none, some, List,
  [], ◌∷◌, arith, Bool-cases, inl, inr, All, if◌then◌else◌, ◌==◌,
}
use family_assistant_kernel.Scheduler.Tasks.{
  Task, Loop, lookup, pop, cancel, finish, cancel_found, cancel_task, create_task, run_task,
}

-- asyncio still runs the task and nobody asked it to stop
unfoldable pub is_live : Task → Bool
is_live t = not t.cancelled && not t.done

-- a live task stands in the registry under its key
abbrev pub IsTracked : List (String × ℕ) → Task → Type 0
IsTracked registry t = is_live t ≡ true → lookup t.key registry ≡ some t.id

abbrev pub Tracked : Loop → Type 0
Tracked s = All (IsTracked s.registry) s.tasks

pub str_eq_refl : (x : String) → str_eq x x ≡ true
str_eq_refl x = (eq_iff x x).1 refl

pub lookup-pop :
    (j k : String) (registry : List (String × ℕ))
    → lookup j (pop k registry) ≡ (if str_eq k j then none else lookup j registry)
unfolding lookup pop
lookup-pop j k [] = ground arith
lookup-pop j k ((i, id) ∷ registry) = elim (Bool-cases (str_eq j i)) [
  | inl same ↦ rw ((eq_iff j i).0 same) (ground (arith, str_eq_refl i, lookup-pop i k registry))
  | inr differ ↦ ground (arith, differ, lookup-pop j k registry)
]

-- a task under another key does not notice a `pop`
pop-IsTracked :
    (key : String) (registry : List (String × ℕ)) (t : Task)
    → IsTracked registry t
    → (lookup key registry ≡ some t.id → is_live t ≡ false)
    → IsTracked (pop key registry) t
pop-IsTracked key registry t h gone live = elim (Bool-cases (str_eq key t.key)) [
  | inl same ↦
      let idle : is_live t ≡ false = gone (rw ((eq_iff key t.key).0 same) (h live)) in
      let bad : ⊥ = ground (arith, live, idle) in elim bad [ ]
  | inr differ ↦ rw (lookup-pop t.key key registry, differ) (h live)
]

idle-IsTracked :
    (registry : List (String × ℕ)) (t : Task) → is_live t ≡ false → IsTracked registry t
idle-IsTracked registry t idle live = let bad : ⊥ = ground (arith, live, idle) in elim bad [ ]

cancelled-idle : (t : Task) → is_live (record t { cancelled = true }) ≡ false
unfolding is_live
cancelled-idle t = refl

done-idle : (t : Task) → is_live (record t { done = true }) ≡ false
unfolding is_live
done-idle t = ground arith

-- the tasks of a registry from which the key of `id` is taken, while `change` ends `id`
module _ (key : String) (registry : List (String × ℕ)) where
  untracked-All :
      (ts : List Task)
      → lookup key registry ≡ none
      → All (IsTracked registry) ts
      → All (IsTracked (pop key registry)) ts
  untracked-All [] gone h = h
  untracked-All (t ∷ ts) gone h =
      (pop-IsTracked key registry t h.0 (λ e. cc (gone, e)), untracked-All ts gone h.1)

  other-IsTracked :
      (id : ℕ) (t : Task)
      → lookup key registry ≡ some id
      → (id == t.id) ≡ false
      → IsTracked registry t
      → IsTracked (pop key registry) t
  other-IsTracked id t found differ h =
      pop-IsTracked key registry t h
        (λ e. let bad : ⊥ = grind (arith, found, e, differ) in elim bad [ ])

  changed-IsTracked :
      (id : ℕ) (t u : Task)
      → lookup key registry ≡ some id
      → is_live u ≡ false
      → IsTracked registry t
      → IsTracked (pop key registry) (if id == t.id then u else t)
  changed-IsTracked id t u found idle h = elim (Bool-cases (id == t.id)) [
    | inl same ↦ rw same (idle-IsTracked (pop key registry) u idle)
    | inr differ ↦ rw differ (other-IsTracked id t found differ h)
  ]

  cancel-All :
      (id : ℕ) (ts : List Task)
      → lookup key registry ≡ some id
      → All (IsTracked registry) ts
      → All (IsTracked (pop key registry)) (cancel id ts)
  unfolding cancel
  cancel-All id [] found h = h
  cancel-All id (t ∷ ts) found h = (
    changed-IsTracked id t (record t { cancelled = true }) found (cancelled-idle t) h.0,
    cancel-All id ts found h.1,
  )

  pub finish-All :
      (id : ℕ) (ts : List Task)
      → lookup key registry ≡ some id
      → All (IsTracked registry) ts
      → All (IsTracked (pop key registry)) (finish id ts)
  unfolding finish
  finish-All id [] found h = h
  finish-All id (t ∷ ts) found h = (
    changed-IsTracked id t (record t { done = true }) found (done-idle t) h.0,
    finish-All id ts found h.1,
  )

cancel_found-Tracked :
    (key : String) (o : Option ℕ) (s : Loop)
    → lookup key s.registry ≡ o
    → Tracked s
    → Tracked (cancel_found key o s)
unfolding cancel_found
cancel_found-Tracked key none s found h = untracked-All key s.registry s.tasks found h
cancel_found-Tracked key (some id) s found h = cancel-All key s.registry id s.tasks found h

pub cancel_task-Tracked : (key : String) (s : Loop) → Tracked s → Tracked (cancel_task key s)
unfolding cancel_task
cancel_task-Tracked key s h = cancel_found-Tracked key (lookup key s.registry) s refl h

cancel_found-registry :
    (key : String) (o : Option ℕ) (s : Loop) → (cancel_found key o s).registry ≡ pop key s.registry
unfolding cancel_found
cancel_found-registry key none s = refl
cancel_found-registry key (some id) s = refl

pub cancel_task-registry :
    (key : String) (s : Loop) → (cancel_task key s).registry ≡ pop key s.registry
unfolding cancel_task
cancel_task-registry key s = cancel_found-registry key (lookup key s.registry) s

entry-IsTracked :
    (key : String) (id : ℕ) (registry : List (String × ℕ)) (t : Task)
    → lookup key registry ≡ none
    → IsTracked registry t
    → IsTracked ((key, id) ∷ pop key registry) t
unfolding lookup
entry-IsTracked key id registry t gone h live = elim (Bool-cases (str_eq t.key key)) [
  | inl same ↦
      let known : lookup key registry ≡ some t.id = rw (sym ((eq_iff t.key key).0 same)) (h live) in
      cc (gone, known)
  | inr differ ↦ rw differ (pop-IsTracked key registry t h (λ e. cc (gone, e)) live)
]

-- a new entry in front hides no task that the registry without the key knows
entry-All :
    (key : String) (id : ℕ) (registry : List (String × ℕ)) (ts : List Task)
    → lookup key registry ≡ none
    → All (IsTracked registry) ts
    → All (IsTracked ((key, id) ∷ pop key registry)) ts
unfolding lookup
entry-All key id registry [] gone h = h
entry-All key id registry (t ∷ ts) gone h =
    (entry-IsTracked key id registry t gone h.0, entry-All key id registry ts gone h.1)

create_task-Tracked :
    (key : String) (s : Loop)
    → lookup key s.registry ≡ none
    → Tracked s
    → Tracked (create_task key s)
unfolding create_task lookup
create_task-Tracked key s gone h =
    ((λ live. rw (str_eq_refl key) refl), entry-All key s.next s.registry s.tasks gone h)

lookup-cancel_task : (key : String) (s : Loop) → lookup key (cancel_task key s).registry ≡ none
lookup-cancel_task key s =
    rw (cancel_task-registry key s, lookup-pop key key s.registry, str_eq_refl key) refl

pub run_task-Tracked : (key : String) (s : Loop) → Tracked s → Tracked (run_task key s)
unfolding run_task
run_task-Tracked key s h =
    create_task-Tracked key (cancel_task key s) (lookup-cancel_task key s)
      (cancel_task-Tracked key s h)
