-- ===== src/Scheduler/Tests.antt =====
-- The scheduler on small tables and loops.
use family_assistant_kernel.Prelude.{
  ℕ, ◌≡◌, refl, true, false, String, Option, none, some, List, [], ◌∷◌, arith, All, select, str_eq,
  if◌then◌else◌,
}
use family_assistant_kernel.Storage.{Table, find}
use family_assistant_kernel.Exec.{ok, err, multiple_results}
use family_assistant_kernel.Ledger.Columns.{given, absent, is_absent}
use family_assistant_kernel.Scheduler.Requests.{
  JobType, JobCreateBody, JobUpdateBody, jobs_for_user, job_name, jobs_named, create_named,
  create_of, job_create, job_update, JobRequest, create_job, change_job, remove_job, respond_all,
}
use family_assistant_kernel.Scheduler.Bootstrap.{bootstrap}
use family_assistant_kernel.Scheduler.Bootstrap.Started.{
  KernelStarted, JobStarted, bootstrap-IsStarted,
}
use family_assistant_kernel.Scheduler.Owners.{respond_all-jobs_for_user}
use family_assistant_kernel.Scheduler.Tasks.{
  Loop, ended, handle, lookup, run_task, complete, shutdown,
}
use family_assistant_kernel.Scheduler.Tasks.Tracked.{is_live, Tracked}
use family_assistant_kernel.Scheduler.Events.{handle-Tracked, superseded-lost}
use family_assistant_kernel.Scheduler.Shutdown.{shutdown-idle}
use family_assistant_kernel.Scheduler.Jobs.{
  Job, Work, running, error, trampoline_round, execute_batch,
}
use family_assistant_kernel.Scheduler.Batch.{
  Runs, runnable, trampoline_round-Runs, execute_batch-paused,
}

abbrev news_job : Job
news_job = record {
  user_id = 1;
  name = "news";
  job_type = "news_ingestion";
  interval_minutes = some 30;
  is_active = true;
  last_run_at = none;
  next_run_at = 100;
  last_status = some running;
  last_error = none;
  run_count = 4;
}

abbrev news_type : JobType
news_type = record {
  job_type = "news_ingestion";
  label = "news";
  name = "News";
  is_kernel = false;
  parameters_model = some (λ metadata. true);
}

abbrev gc_type : JobType
gc_type = record news_type { job_type = "gc"; is_kernel = true; parameters_model = none }

abbrev types : String → Option JobType
types job_type = if str_eq job_type "news_ingestion" then some news_type else none

abbrev weekly : JobCreateBody
weekly = record {
  name = some "weekly";
  job_type = "news_ingestion";
  metadata = "{}";
  interval_minutes = some 60;
}

abbrev same_name : JobUpdateBody
same_name = record { name = given "news"; is_active = absent }

abbrev manual_job : Job
manual_job = record news_job { name = "manual"; interval_minutes = none }

abbrev table : Table Job
table = record { rows = (1, news_job) ∷ (2, manual_job) ∷ []; next = 3 }

abbrev idle : Work
idle = record { table = table; handled = [] }

abbrev fails_first : ℕ → Job → Option String
fails_first id job = if str_eq job.name "news" then some "timeout" else none

abbrev one_task : Loop
one_task = record {
  registry = ("trampoline:news", 0) ∷ [];
  tasks = record { id = 0; key = "trampoline:news"; cancelled = false; done = false } ∷ [];
  next = 1;
}

one_task-Tracked : Tracked one_task
unfolding lookup
one_task-Tracked = ((λ live. refl), tt)

trampoline_round-Runs_example :
    Runs
      (trampoline_round "news_ingestion" 100 table.rows)
      (select (λ r. runnable "news_ingestion" 100 r.1) table.rows)
trampoline_round-Runs_example = trampoline_round-Runs "news_ingestion" 100 table.rows

abbrev fails_silently : ℕ → Job → Option String
fails_silently id job = some ""

execute_batch-paused_example :
    (after : Job) × (find 1 (execute_batch fails_silently (λ id. 120) table.rows idle).table.rows
      ≡ some after)
    × (after.last_status ≡ some error)
    × (after.run_count ≡ 5)
    × (after.is_active ≡ true)
unfolding find
execute_batch-paused_example =
    execute_batch-paused fails_silently (λ id. 120) 1 table.rows idle news_job news_job ""
      (refl, (refl, tt)) refl refl refl

handle-Tracked_example : Tracked (handle (ended 0 "trampoline:news") one_task)
unfolding lookup
handle-Tracked_example = handle-Tracked (ended 0 "trampoline:news") one_task refl one_task-Tracked

shutdown-idle_example :
    All (λ t. is_live t ≡ false) (shutdown one_task).tasks
    × ((j : String) → lookup j (shutdown one_task).registry ≡ none)
shutdown-idle_example = shutdown-idle one_task one_task-Tracked

superseded-lost_example :
    (lookup "trampoline:news"
        (complete 0 "trampoline:news" (run_task "trampoline:news" one_task)).registry
      ≡ none)
    × (¬ Tracked (complete 0 "trampoline:news" (run_task "trampoline:news" one_task)))
superseded-lost_example = superseded-lost "trampoline:news" one_task 0 (omega arith)

-- user 2 creates a job and aims at the jobs of user 1
abbrev aimed : List (ℕ × JobRequest)
aimed = (2, create_job 100 weekly) ∷ (2, remove_job 1) ∷ (2, change_job 2 same_name) ∷ []

respond_all-jobs_for_user_example :
    jobs_for_user 1 (respond_all types aimed table).rows ≡ jobs_for_user 1 table.rows
respond_all-jobs_for_user_example =
    respond_all-jobs_for_user types 1 aimed table (refl, (refl, (refl, tt)))

-- a creation by the user
weekly_created : (job_create types 100 1 weekly table).0 ≡ ok (some "news_ingestion")
unfolding job_create create_of create_named job_name jobs_named
weekly_created = refl

-- after a rename two jobs have the name, and a creation with it raises MultipleResultsFound
renamed_twice :
    (job_create types 100 1
      (record weekly { name = some "news" })
      (job_update types 1 2 same_name table).1).0
    ≡ err multiple_results
unfolding job_create create_of create_named job_name jobs_named job_update is_absent
renamed_twice = refl

-- one kernel type and one type with jobs, on a loop that has a task
abbrev registered : List JobType
registered = gc_type ∷ news_type ∷ []

bootstrap-IsStarted_example :
    All (KernelStarted (bootstrap registered 200 table one_task).1) registered
    × All (JobStarted registered (bootstrap registered 200 table one_task).1) table.rows
bootstrap-IsStarted_example = bootstrap-IsStarted registered 200 table one_task
