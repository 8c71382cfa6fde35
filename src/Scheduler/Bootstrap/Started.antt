-- ===== src/Scheduler/Bootstrap/Started.antt =====
-- Which trampolines stand in the registry of tasks after `bootstrap`.
use family_assistant_kernel.Prelude.{
  ℕ, ◌≡◌, refl, sym, ◌∙◌, ap, Bool, true, false, str_eq, eq_iff, String, Option, none, some, List,
  [], ◌∷◌, if◌then◌else◌, any, All, All-map, Bool-cases, inl, inr, arith,
}
use mathlib.Core.Path.{subst}
use family_assistant_kernel.Storage.{Table}
use family_assistant_kernel.Scheduler.Tasks.{
  Loop, lookup, pop, cancel_found, cancel_task, create_task, run_task,
}
use family_assistant_kernel.Scheduler.Tasks.Tracked.{lookup-pop, str_eq_refl}
use family_assistant_kernel.Scheduler.Jobs.{Job, reset_stale_running_jobs}
use family_assistant_kernel.Scheduler.Requests.{JobType}
use family_assistant_kernel.Scheduler.Bootstrap.{
  trampoline_key, schedule_type, get_job_type, schedule_kernel, unless_kernel, schedule_user,
  bootstrap,
}
use family_assistant_kernel.Scheduler.Bootstrap.Types.{
  by_branch, active_types, HasType, row-HasType,
}

abbrev pub is_some : Option ℕ → Bool
is_some none = false
is_some (some id) = true

-- the registry has a task under the key
abbrev pub HasTask : String → Loop → Type 0
HasTask key s = is_some (lookup key s.registry) ≡ true

-- the registry has the trampoline of a job type
abbrev pub IsStarted : String → Loop → Type 0
IsStarted job_type s = HasTask (trampoline_key job_type) s

cancel_found-registry :
    (k : String) (o : Option ℕ) (s : Loop) → (cancel_found k o s).registry ≡ pop k s.registry
unfolding cancel_found
cancel_found-registry k none s = refl
cancel_found-registry k (some id) s = refl

lookup-run_task :
    (j k : String) (s : Loop)
    → lookup j (run_task k s).registry
      ≡ (if str_eq j k then some (cancel_task k s).next else lookup j (pop k (pop k s.registry)))
unfolding run_task create_task cancel_task lookup
lookup-run_task j k s = rw (cancel_found-registry k (lookup k s.registry) s) refl

run_task-HasTask : (k : String) (s : Loop) → HasTask k (run_task k s)
run_task-HasTask k s = rw (lookup-run_task k k s, str_eq_refl k) refl

run_task-keeps : (j k : String) (s : Loop) → HasTask j s → HasTask j (run_task k s)
run_task-keeps j k s h = elim (Bool-cases (str_eq k j)) [
  | inl same ↦ subst (λ i. HasTask i (run_task k s)) ((eq_iff k j).0 same) (run_task-HasTask k s)
  | inr differ ↦ elim (Bool-cases (str_eq j k)) [
    | inl same ↦ rw (lookup-run_task j k s, same) refl
    | inr other ↦
        rw
          (
            lookup-run_task j k s,
            other,
            lookup-pop j k (pop k s.registry),
            differ,
            lookup-pop j k s.registry,
            differ,
          )
          h
  ]
]

module _ (key : String) where
  if-HasTask :
      (b : Bool) (x y : Loop) → HasTask key x → HasTask key y → HasTask key (if b then x else y)
  if-HasTask true x y h k = h
  if-HasTask false x y h k = k

  kernel-keeps :
      (types : List JobType) (s : Loop) → HasTask key s → HasTask key (schedule_kernel types s)
  unfolding schedule_kernel schedule_type
  kernel-keeps [] s h = h
  kernel-keeps (type ∷ types) s h =
      kernel-keeps types _ (if-HasTask type.is_kernel _ _ (run_task-keeps key _ s h) h)

  unless_kernel-keeps :
      (o : Option JobType) (s : Loop) → HasTask key s → HasTask key (unless_kernel o s)
  unfolding schedule_type
  unless_kernel-keeps none s h = h
  unless_kernel-keeps (some type) s h = if-HasTask type.is_kernel _ _ h (run_task-keeps key _ s h)

  user-keeps :
      (types : List JobType) (jts : List String) (s : Loop)
      → HasTask key s
      → HasTask key (schedule_user types jts s)
  unfolding schedule_user
  user-keeps types [] s h = h
  user-keeps types (jt ∷ jts) s h =
      user-keeps types jts _ (unless_kernel-keeps (get_job_type jt types) s h)

-- the kernel types have their trampoline
abbrev pub KernelStarted : Loop → JobType → Type 0
KernelStarted s type = type.is_kernel ≡ true → IsStarted type.job_type s

kernel-IsStarted :
    (types : List JobType) (s : Loop) → All (KernelStarted (schedule_kernel types s)) types
unfolding schedule_kernel schedule_type
kernel-IsStarted [] s = tt
kernel-IsStarted (type ∷ types) s = (
  (λ e.
      subst
        (λ (b : Bool).
          IsStarted type.job_type (schedule_kernel types (if b then schedule_type type s else s)))
        (sym e) (kernel-keeps (trampoline_key type.job_type) types _ (run_task-HasTask _ s))),
  kernel-IsStarted types (if type.is_kernel then schedule_type type s else s),
)

user-All :
    (all jts : List _) (types : List JobType) (s : Loop)
    → All (KernelStarted s) types
    → All (KernelStarted (schedule_user all jts s)) types
user-All all jts [] s h = tt
user-All all jts (type ∷ types) s h =
    ((λ e. user-keeps _ all jts s (h.0 e)), user-All all jts types s h.1)

-- the type that is found under a name, and its trampoline when it is of the kernel
found-IsStarted :
    (jt : String) (type : JobType) (types : List JobType) (s : Loop)
    → get_job_type jt types ≡ some type
    → All (KernelStarted s) types
    → (type.is_kernel ≡ true → IsStarted jt s) × (jt ≡ type.job_type)
unfolding get_job_type
found-IsStarted jt type [] s h all = cc h
found-IsStarted jt type (u ∷ types) s h all = elim (Bool-cases (str_eq jt u.job_type)) [
  | inl e ↦
      let same : jt ≡ u.job_type = (eq_iff jt u.job_type).0 e in
      let it : some u ≡ some type =
        sym (ap (λ (b : Bool). if b then some u else get_job_type jt types) e) ∙ h in
      let found : u ≡ type = cc it in
      (
        subst (λ (v : JobType). v.is_kernel ≡ true → IsStarted jt s) found
            (λ k. subst (λ i. IsStarted i s) (sym same) (all.0 k)),
        same ∙ ap (λ (v : JobType). v.job_type) found,
      )
  | inr e ↦
      found-IsStarted jt type types s
        (sym (ap (λ (b : Bool). if b then some u else get_job_type jt types) e) ∙ h) all.1
]

unless_kernel-All :
    (o : Option JobType) (types : List JobType) (s : Loop)
    → All (KernelStarted s) types
    → All (KernelStarted (unless_kernel o s)) types
unless_kernel-All o [] s h = tt
unless_kernel-All o (type ∷ types) s h =
    ((λ e. unless_kernel-keeps _ o s (h.0 e)), unless_kernel-All o types s h.1)

unless_kernel-IsStarted :
    (types : List JobType) (jt : String) (type : JobType) (s : Loop)
    → get_job_type jt types ≡ some type
    → All (KernelStarted s) types
    → IsStarted jt (unless_kernel (get_job_type jt types) s)
unfolding schedule_type
unless_kernel-IsStarted types jt type s h all =
    let found = found-IsStarted jt type types s h all in
    subst (λ (o : Option JobType). IsStarted jt (unless_kernel o s)) (sym h)
      (by_branch (λ (b : Bool). IsStarted jt (if b then s else schedule_type type s)) type.is_kernel
        found.0
        (subst (λ (i : String). HasTask (trampoline_key jt) (run_task (trampoline_key i) s)) found.1
          (run_task-HasTask (trampoline_key jt) s)))

-- a name of the list whose type is registered
schedule_user-IsStarted :
    (types : List JobType) (jt : String) (type : JobType) (jts : List String) (s : Loop)
    → get_job_type jt types ≡ some type
    → All (KernelStarted s) types
    → any (str_eq jt) jts ≡ true
    → IsStarted jt (schedule_user types jts s)
unfolding schedule_user
schedule_user-IsStarted types jt type [] s h all e = let bad : ⊥ = ground (arith, e) in elim bad [ ]
schedule_user-IsStarted types jt type (k ∷ jts) s h all e = elim (Bool-cases (str_eq jt k)) [
  | inl same ↦ user-keeps (trampoline_key jt) types jts _ (
      subst (λ (i : String). IsStarted jt (unless_kernel (get_job_type i types) s))
        ((eq_iff jt k).0 same) (unless_kernel-IsStarted types jt type s h all))
  | inr other ↦
      schedule_user-IsStarted types jt type jts _ h
        (unless_kernel-All (get_job_type k types) types s all) (ground (arith, e, other))
]

-- the trampoline of an active job whose type is registered
abbrev pub JobStarted : List JobType → Loop → ℕ × Job → Type 0
JobStarted types s r =
    r.1.is_active ≡ true
    → (type : JobType) → get_job_type r.1.job_type types ≡ some type
    → IsStarted r.1.job_type s

-- After `bootstrap` the registry of tasks has the trampoline of every registered kernel type, and of the
-- type of every active job in the table whose type is registered.
pub bootstrap-IsStarted :
    (types : List JobType) (now : ℕ) (t : Table Job) (s : Loop)
    → All (KernelStarted (bootstrap types now t s).1) types
      × All (JobStarted types (bootstrap types now t s).1) t.rows
unfolding bootstrap reset_stale_running_jobs HasType active_types
bootstrap-IsStarted types now t s =
    let kernel = kernel-IsStarted types s in
    (
      user-All types (active_types now t.rows) types (schedule_kernel types s) kernel,
      All-map t.rows
          (λ (r : ℕ × Job) h active type found.
            schedule_user-IsStarted types r.1.job_type type (active_types now t.rows)
              (schedule_kernel types s) found kernel (h active))
          (row-HasType now t.rows),
    )
