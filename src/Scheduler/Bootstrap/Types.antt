-- ===== src/Scheduler/Bootstrap/Types.antt =====
-- The set of the types of the active jobs (`bootstrap` of src/application/scheduler/_scheduler.py).
use family_assistant_kernel.Prelude.{
  ℕ, ◌≡◌, refl, sym, Bool, true, false, str_eq, String, some, List, [], ◌∷◌, if◌then◌else◌, any,
  All, All-map, Bool-cases, inl, inr, arith,
}
use mathlib.Core.Path.{subst}
use family_assistant_kernel.Scheduler.Tasks.Tracked.{str_eq_refl}
use family_assistant_kernel.Scheduler.Jobs.{Job, stale, is_stale, reset_rows}
use family_assistant_kernel.Scheduler.Bootstrap.{active_jobs, types_with_jobs}

pub by_branch : (P : Bool → Type 0) (b : Bool) → (b ≡ true → P true) → P false → P b
by_branch P true h k = h refl
by_branch P false h k = k

-- the set has the type of every row
types_with_jobs-any :
    (r : ℕ × Job) (rows : List (ℕ × Job))
    → any (str_eq r.1.job_type) (types_with_jobs (r ∷ rows)) ≡ true
unfolding types_with_jobs
types_with_jobs-any r rows = elim (Bool-cases (any (str_eq r.1.job_type) (types_with_jobs rows))) [
  | inl e ↦ rw e e
  | inr e ↦ rw (e, str_eq_refl r.1.job_type) refl
]

types_with_jobs-kept :
    (x : String) (r : ℕ × Job) (rows : List (ℕ × Job))
    → any (str_eq x) (types_with_jobs rows) ≡ true
    → any (str_eq x) (types_with_jobs (r ∷ rows)) ≡ true
unfolding types_with_jobs
types_with_jobs-kept x r rows h =
    elim (Bool-cases (any (str_eq r.1.job_type) (types_with_jobs rows))) [
      | inl e ↦ rw e h
      | inr e ↦ rw e (ground (arith, h))
    ]

-- the types of the active jobs, after the reset of the stale ones
unfoldable pub active_types : ℕ → List (ℕ × Job) → List String
unfolding active_jobs types_with_jobs reset_rows
active_types now rows = types_with_jobs (active_jobs (reset_rows now rows))

active-any :
    (q : ℕ × Job) (rows : List (ℕ × Job))
    → q.1.is_active ≡ true
    → any (str_eq q.1.job_type) (types_with_jobs (active_jobs (q ∷ rows))) ≡ true
unfolding active_jobs
active-any q rows h =
    subst
      (λ (b : Bool).
        any (str_eq q.1.job_type)
          (types_with_jobs (if b then q ∷ active_jobs rows else active_jobs rows))
        ≡ true)
      (sym h) (types_with_jobs-any q (active_jobs rows))

active-kept :
    (x : String) (q : ℕ × Job) (rows : List (ℕ × Job))
    → any (str_eq x) (types_with_jobs (active_jobs rows)) ≡ true
    → any (str_eq x) (types_with_jobs (active_jobs (q ∷ rows))) ≡ true
unfolding active_jobs
active-kept x q rows h =
    by_branch
      (λ (b : Bool).
        any (str_eq x) (types_with_jobs (if b then q ∷ active_jobs rows else active_jobs rows))
        ≡ true)
      q.1.is_active (λ e. types_with_jobs-kept x q (active_jobs rows) h) h

-- a job that is active has its type in the set
unfoldable pub HasType : ℕ → List (ℕ × Job) → ℕ × Job → Type 0
unfolding active_types
HasType now rows r = r.1.is_active ≡ true → any (str_eq r.1.job_type) (active_types now rows) ≡ true

head-HasType : (now : ℕ) (r : ℕ × Job) (rows : List (ℕ × Job)) → HasType now (r ∷ rows) r
unfolding reset_rows HasType active_types
head-HasType now (id, job) rows h =
    by_branch
      (λ (b : Bool).
        any (str_eq job.job_type) (
          types_with_jobs (
            active_jobs (
              (id, if b then record job { last_status = some stale; next_run_at = now } else job)
              ∷ reset_rows now rows)))
        ≡ true)
      (is_stale now job)
      (λ e.
        active-any (id, record job { last_status = some stale; next_run_at = now })
          (reset_rows now rows) h)
      (active-any (id, job) (reset_rows now rows) h)

pub row-HasType : (now : ℕ) (rows : List (ℕ × Job)) → All (HasType now rows) rows
unfolding HasType active_types reset_rows
row-HasType now [] = tt
row-HasType now (r ∷ rows) = (
  head-HasType now r rows,
  All-map rows (λ (q : ℕ × Job) h e. active-kept q.1.job_type _ (reset_rows now rows) (h e))
      (row-HasType now rows),
)
