-- ===== src/Scheduler/Jobs.antt =====
-- Jobs with a row in the database: the trampoline's choice of due jobs, `_execute_batch`, and the
-- repository behind them. The handler of a job type is a parameter; what it raises comes back as the
-- text of the exception. Times are minutes.
use family_assistant_kernel.Prelude.{
  ℕ, ◌+◌, Bool, true, false, ◌&&◌, ltb, leb, str_eq, String, Option, none, some, List, [], ◌∷◌,
  ◌++◌, if◌then◌else◌, select, min,
}
use family_assistant_kernel.Storage.{Table, update_rows}

pub data JobStatus : Type 0 where
  running success error stale : JobStatus

pub record Job : Type 0 where
  pub user_id : ℕ
  pub name : String
  pub job_type : String
  pub interval_minutes : Option ℕ
  pub is_active : Bool
  pub last_run_at : Option ℕ
  pub next_run_at : ℕ
  pub last_status : Option JobStatus
  pub last_error : Option String
  pub run_count : ℕ

-- `job.interval_minutes or 0`
unfoldable pub interval_of : Job → ℕ
interval_of job = elim job.interval_minutes [ none ↦ 0 | some m ↦ m ]

unfoldable pub is_running : Option JobStatus → Bool
is_running (some running) = true
is_running (some success) = false
is_running (some error) = false
is_running (some stale) = false
is_running none = false

-- the rows that `active_jobs_by_type` selects
unfoldable pub active_jobs_by_type : String → List (ℕ × Job) → List (ℕ × Job)
active_jobs_by_type job_type rows = select (λ r. r.1.is_active && str_eq r.1.job_type job_type) rows

-- what one round of `_trampoline` decides
pub data Round : Type 0 where
  stopped : Round
  batch : List (ℕ × Job) → ℕ → Round

unfoldable pub scheduled_jobs : List (ℕ × Job) → List (ℕ × Job)
unfolding interval_of
scheduled_jobs jobs = select (λ r. ltb 0 (interval_of r.1)) jobs

unfoldable pub due_jobs : ℕ → List (ℕ × Job) → List (ℕ × Job)
due_jobs now jobs = select (λ r. leb r.1.next_run_at now) jobs

-- `min` of the intervals, for a list with a first element
unfoldable pub min_interval : Job → List (ℕ × Job) → ℕ
unfolding interval_of
min_interval job [] = interval_of job
min_interval job ((id, next) ∷ rows) = min (interval_of job) (min_interval next rows)

unfoldable pub round_of : ℕ → List (ℕ × Job) → Round
unfolding due_jobs min_interval
round_of now [] = stopped
round_of now ((id, job) ∷ rows) = batch (due_jobs now ((id, job) ∷ rows)) (min_interval job rows)

unfoldable pub trampoline_round : String → ℕ → List (ℕ × Job) → Round
unfolding active_jobs_by_type scheduled_jobs round_of
trampoline_round job_type now rows =
    round_of now (scheduled_jobs (active_jobs_by_type job_type rows))

-- `str(e)[:1000]`, with the exception's text as it is after the cut
unfoldable pub finished : ℕ → Job → Option String → Job → Job
unfolding interval_of
finished now job failure row = record row {
  last_run_at = some now;
  last_status = some (elim failure [ none ↦ success | some text ↦ error ]);
  last_error = failure;
  run_count = job.run_count + 1;
  next_run_at = if ltb 0 (interval_of job) then now + interval_of job else row.next_run_at;
  is_active = elim failure [
    | none ↦ row.is_active
    | some text ↦ if str_eq text "" then row.is_active else false
  ];
}

-- `update_job_status(job.id, last_status="running")`
unfoldable pub mark_running : ℕ → Table Job → Table Job
mark_running id t = record t {
  rows = update_rows id (λ row. record row { last_status = some running }) t.rows;
}

-- The rows, and the jobs that were handed to the validation of their parameters and the handler, in the
-- order of these calls, which `handler` stands for.
pub record Work : Type 0 where
  pub table : Table Job
  pub handled : List (ℕ × Job)

module _ (handler : ℕ → Job → Option String) (clock : ℕ → ℕ) where
  unfoldable pub execute_job : ℕ → Job → Work → Work
  unfolding finished mark_running
  execute_job id job w =
      let started = mark_running id w.table in
      record {
        table = record started {
          rows = update_rows id (finished (clock id) job (handler id job)) started.rows;
        };
        handled = w.handled ++ (id, job) ∷ [];
      }

  -- `_execute_batch`
  unfoldable pub execute_batch : List (ℕ × Job) → Work → Work
  unfolding execute_job
  execute_batch [] w = w
  execute_batch ((id, job) ∷ jobs) w = execute_batch jobs (execute_job id job w)

-- `reset_stale_running_jobs`, with the number of rows it changes
unfoldable pub is_stale : ℕ → Job → Bool
unfolding is_running
is_stale now job = is_running job.last_status && leb job.next_run_at now

unfoldable pub reset_rows : ℕ → List (ℕ × Job) → List (ℕ × Job)
unfolding is_stale
reset_rows now [] = []
reset_rows now ((id, job) ∷ rows) =
    (
      id,
      if is_stale now job then record job { last_status = some stale; next_run_at = now } else job,
    )
    ∷ reset_rows now rows

unfoldable pub count_stale : ℕ → List (ℕ × Job) → ℕ
unfolding is_stale
count_stale now [] = 0
count_stale now ((id, job) ∷ rows) =
    let rest = count_stale now rows in if is_stale now job then rest + 1 else rest

unfoldable pub reset_stale_running_jobs : ℕ → Table Job → ℕ × Table Job
unfolding reset_rows count_stale
reset_stale_running_jobs now t = (count_stale now t.rows, record t { rows = reset_rows now t.rows })
