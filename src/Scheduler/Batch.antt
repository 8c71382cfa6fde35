-- ===== src/Scheduler/Batch.antt =====
-- What `_execute_batch`, the choice of due jobs and the reset of stale jobs do to the rows.
use mathlib.Core.Option
use mathlib.Core.Path.{subst}
use family_assistant_kernel.Prelude.{
  ℕ, ◌+◌, ◌<◌, ◌≡◌, refl, ◌∙◌, Bool, true, false, ◌&&◌, ltb, leb, ◌==◌, str_eq, String, Option,
  none, some, List, [], ◌∷◌, if◌then◌else◌, select, All, arith, Bool-cases, inl, inr, ==_refl,
}
use family_assistant_kernel.Storage.{find, update_rows, IsUnique}
use family_assistant_kernel.Storage.Laws.{find-update_rows}
use family_assistant_kernel.Scheduler.Jobs.{
  Job, Work, running, error, stale, interval_of, is_running, active_jobs_by_type, Round, stopped,
  batch, scheduled_jobs, due_jobs, min_interval, round_of, trampoline_round, finished, mark_running,
  execute_job, execute_batch, is_stale, reset_rows, count_stale,
}

-- the row of a job after its turn in the batch
abbrev pub turn : (ℕ → Job → Option String) → (ℕ → ℕ) → ℕ → Job → Job → Job
turn handler clock id job row =
    finished (clock id) job (handler id job) (record row { last_status = some running })

module _ (handler : ℕ → Job → Option String) (clock : ℕ → ℕ) where
  find-execute_job :
      (k id : ℕ) (job : Job) (w : Work)
      → find k (execute_job handler clock id job w).table.rows ≡ (
          if id == k
          then Option.map (turn handler clock id job) (find k w.table.rows)
          else find k w.table.rows)
  unfolding execute_job mark_running
  find-execute_job k id job w =
      rw
        (find-update_rows k id (finished (clock id) job (handler id job))
          (update_rows id (λ row. record row { last_status = some running }) w.table.rows))
        (rw (find-update_rows k id (λ row. record row { last_status = some running }) w.table.rows)
          (two_updates (id == k) (find k w.table.rows)))
    where
      two_updates :
          (b : Bool) (o : Option Job)
          → (if b
              then Option.map (finished (clock id) job (handler id job)) (
                  if b
                  then Option.map {A = Job} (λ row. record row { last_status = some running }) o
                  else o)
              else (if b
                  then Option.map {A = Job} (λ row. record row { last_status = some running }) o
                  else o))
            ≡ (if b then Option.map (turn handler clock id job) o else o)
      two_updates true none = refl
      two_updates true (some row) = refl
      two_updates false o = refl

  abbrev pub turn_of : ℕ → Option Job → Option Job → Option Job
  turn_of k none o = o
  turn_of k (some job) o = Option.map (turn handler clock k job) o

  find-execute_batch_table :
      (k : ℕ) (jobs : List (ℕ × Job)) (w : Work)
      → IsUnique jobs
      → find k (execute_batch handler clock jobs w).table.rows
        ≡ turn_of k (find k jobs) (find k w.table.rows)
  unfolding execute_batch find
  find-execute_batch_table k [] w u = refl
  find-execute_batch_table k ((id, job) ∷ jobs) w u = elim (Bool-cases (id == k)) [
    | inl same ↦
        let equal : k ≡ id = grind (arith, same) in
        rw equal (
          rw (find-execute_batch_table id jobs (execute_job handler clock id job w) u.1)
            (rw (find-execute_job id id job w, ==_refl id, u.0) refl))
    | inr differ ↦
        let apart : (k == id) ≡ false = grind (arith, differ) in
        rw (find-execute_batch_table k jobs (execute_job handler clock id job w) u.1)
          (rw (find-execute_job k id job w, differ, apart) refl)
  ]

-- the rows that the trampoline may run at `now`
abbrev pub runnable : String → ℕ → Job → Bool
runnable job_type now job =
    job.is_active
    && str_eq job.job_type job_type
    && ltb 0 (interval_of job)
    && leb job.next_run_at now

selected :
    (job_type : String) (now : ℕ) (rows : List (ℕ × Job))
    → due_jobs now (scheduled_jobs (active_jobs_by_type job_type rows))
      ≡ select (λ r. runnable job_type now r.1) rows
unfolding due_jobs scheduled_jobs active_jobs_by_type
selected job_type now [] = refl
selected job_type now ((id, job) ∷ rows) = ground (arith, selected job_type now rows)

-- a round that runs `expected` and sleeps at least a minute, or stops with nothing to run
abbrev pub Runs : Round → List (ℕ × Job) → Type 0
Runs stopped expected = expected ≡ []
Runs (batch jobs sleep) expected = (jobs ≡ expected) × (0 < sleep)

scheduled-positive : (rows : List (ℕ × Job)) → All (λ r. 0 < interval_of r.1) (scheduled_jobs rows)
unfolding scheduled_jobs
scheduled-positive [] = tt
scheduled-positive ((id, job) ∷ rows) = elim (Bool-cases (ltb 0 (interval_of job))) [
  | inl repeats ↦ rw repeats (ground (arith, repeats), scheduled-positive rows)
  | inr manual ↦ rw manual (scheduled-positive rows)
]

min_interval-positive :
    (job : Job) (rows : List (ℕ × Job))
    → 0 < interval_of job
    → All (λ r. 0 < interval_of r.1) rows
    → 0 < min_interval job rows
unfolding min_interval
min_interval-positive job [] here h = here
min_interval-positive job ((id, next) ∷ rows) here h =
    omega (arith, min_interval-positive next rows h.0 h.1)

round_of-Runs :
    (now : ℕ) (rows : List (ℕ × Job))
    → All (λ r. 0 < interval_of r.1) rows
    → Runs (round_of now rows) (due_jobs now rows)
unfolding round_of due_jobs
round_of-Runs now [] h = refl
round_of-Runs now ((id, job) ∷ rows) h = (refl, min_interval-positive job rows h.0 h.1)

-- One round of the trampoline runs exactly the rows of its type that are active, have an interval and
-- are due, in the order of the table, and sleeps at least a minute; when it stops, there is no such row.
pub trampoline_round-Runs :
    (job_type : String) (now : ℕ) (rows : List (ℕ × Job))
    → Runs (trampoline_round job_type now rows) (select (λ r. runnable job_type now r.1) rows)
unfolding trampoline_round
trampoline_round-Runs job_type now rows =
    subst (Runs _) (selected job_type now rows)
      (round_of-Runs now _ (scheduled-positive (active_jobs_by_type job_type rows)))

reset_job-fresh :
    (now : ℕ) (job : Job)
    → is_stale now (
        if is_stale now job
        then record job { last_status = some stale; next_run_at = now }
        else job)
      ≡ false
unfolding is_stale is_running
reset_job-fresh now job = elim (Bool-cases (is_stale now job)) [
  | inl old ↦ rw old refl
  | inr fresh ↦ rw fresh fresh
]

-- After the reset no row is stale at the same time, so a second reset changes nothing and counts 0.
pub reset_rows-fresh : (now : ℕ) (rows : List (ℕ × Job)) → count_stale now (reset_rows now rows) ≡ 0
unfolding count_stale reset_rows
reset_rows-fresh now [] = refl
reset_rows-fresh now ((id, job) ∷ rows) =
    ground (arith, reset_job-fresh now job, reset_rows-fresh now rows)

-- When the handler of a job in the batch raised, the row of the job has the status `error` afterwards,
-- counts one run more than the job did, and is active only if the text of the exception is empty and the
-- row was active.
pub execute_batch-paused :
    (handler : ℕ → Job → Option String) (clock : ℕ → ℕ) (k : ℕ) (jobs : List (ℕ × Job)) (w : Work)
    (job row : Job) (text : String)
    → IsUnique jobs
    → find k jobs ≡ some job
    → find k w.table.rows ≡ some row
    → handler k job ≡ some text
    → (after : Job) × (find k (execute_batch handler clock jobs w).table.rows ≡ some after)
      × (after.last_status ≡ some error)
      × (after.run_count ≡ job.run_count + 1)
      × (after.is_active ≡ (if str_eq text "" then row.is_active else false))
unfolding finished
execute_batch-paused handler clock k jobs w job row text u listed there raised = (
  turn handler clock k job row,
  find-execute_batch_table handler clock k jobs w u ∙ rw (listed, there) refl,
  rw raised refl,
  refl,
  rw raised refl,
)
