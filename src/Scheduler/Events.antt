-- ===== src/Scheduler/Events.antt =====
-- Sequences of starts, stops and done callbacks.
use family_assistant_kernel.Prelude.{
  ℕ, ◌≡◌, refl, ◌<◌, Bool, true, false, String, Option, none, some, List, ◌∷◌, arith, if◌then◌else◌,
  ◌==◌,
}
use mathlib.Core.Path.{subst}
use family_assistant_kernel.Scheduler.Tasks.{
  Task, Loop, lookup, pop, finish, cancel_found, cancel_task, create_task, run_task, complete,
  Event, start, stop, ended, handle,
}
use family_assistant_kernel.Scheduler.Tasks.Tracked.{
  is_live, IsTracked, Tracked, run_task-Tracked, cancel_task-Tracked, finish-All, lookup-pop,
  str_eq_refl,
}

-- a done callback comes from the task that stands under its key
abbrev pub Expected : Event → Loop → Type 0
Expected (start key) s = Unit
Expected (stop key) s = Unit
Expected (ended id key) s = lookup key s.registry ≡ some id

-- Starting, stopping and ending tasks keeps every live task in the registry under its key, as long as
-- the task that ends is the one that the registry has under its key.
pub handle-Tracked : (e : Event) (s : Loop) → Expected e s → Tracked s → Tracked (handle e s)
unfolding handle complete
handle-Tracked (start key) s expected h = run_task-Tracked key s h
handle-Tracked (stop key) s expected h = cancel_task-Tracked key s h
handle-Tracked (ended id key) s expected h = finish-All key s.registry id s.tasks expected h

lookup_popped : (key : String) (registry : List (String × ℕ)) → lookup key (pop key registry) ≡ none
lookup_popped key registry = rw (lookup-pop key key registry, str_eq_refl key) refl

lookup-complete :
    (id : ℕ) (key : String) (s : Loop) → lookup key (complete id key s).registry ≡ none
unfolding complete
lookup-complete id key s = lookup_popped key s.registry

complete-lost :
    (key : String) (s : Loop) (old : ℕ)
    → (old == s.next) ≡ false
    → ¬ Tracked (complete old key (create_task key s))
unfolding complete create_task finish is_live
complete-lost key s old older h =
    let fresh : Task = record { id = s.next; key = key; cancelled = false; done = false } in
    let known : IsTracked (pop key ((key, s.next) ∷ pop key s.registry)) fresh =
      subst
        (λ (b : Bool).
          IsTracked (complete old key (create_task key s)).registry
            (if b then record fresh { done = true } else fresh))
        older h.0 in
    cc (known refl, lookup_popped key ((key, s.next) ∷ pop key s.registry))

cancel_found-next : (key : String) (o : Option ℕ) (s : Loop) → (cancel_found key o s).next ≡ s.next
unfolding cancel_found
cancel_found-next key none s = refl
cancel_found-next key (some id) s = refl

-- When a task is started under a key and a task that was started before it under the key ends
-- afterwards, the registry has nothing under the key, and some live task is not in the registry.
pub superseded-lost :
    (key : String) (s : Loop) (old : ℕ)
    → old < s.next
    → (lookup key (complete old key (run_task key s)).registry ≡ none)
      × (¬ Tracked (complete old key (run_task key s)))
unfolding run_task cancel_task
superseded-lost key s old older = (
  lookup-complete old key (run_task key s),
  complete-lost key (cancel_task key s) old
      (rw (cancel_found-next key (lookup key s.registry) s) (ground arith)),
)
