-- ===== src/Scheduler/Bootstrap.antt =====
-- The start of the scheduler: `schedule_type` and `bootstrap` of src/application/scheduler/_scheduler.py.
-- The registry of job types is the list of its values. The set of types that have jobs is a list without
-- repetitions, and the code of a trampoline is not run.
pub mod Types
pub mod Started
use family_assistant_kernel.Prelude.{
  ℕ, Bool, true, false, str_eq, String, Option, none, some, List, [], ◌∷◌, if◌then◌else◌, select,
  any,
}
use Prim.Native.String.{◌++◌ as str_append}
use family_assistant_kernel.Storage.{Table}
use family_assistant_kernel.Scheduler.Tasks.{Loop, run_task}
use family_assistant_kernel.Scheduler.Jobs.{Job, reset_stale_running_jobs}
use family_assistant_kernel.Scheduler.Requests.{JobType}

abbrev pub trampoline_key : String → String
trampoline_key job_type = str_append "trampoline:" job_type

unfoldable pub schedule_type : JobType → Loop → Loop
schedule_type type s = run_task (trampoline_key type.job_type) s

unfoldable pub get_job_type : String → List JobType → Option JobType
get_job_type job_type [] = none
get_job_type job_type (type ∷ types) =
    if str_eq job_type type.job_type then some type else get_job_type job_type types

unfoldable pub active_jobs : List (ℕ × Job) → List (ℕ × Job)
active_jobs rows = select (λ r. r.1.is_active) rows

-- `{j.job_type for j in jobs}`
unfoldable pub types_with_jobs : List (ℕ × Job) → List String
types_with_jobs [] = []
types_with_jobs (r ∷ rows) =
    let rest = types_with_jobs rows in
    if any (str_eq r.1.job_type) rest then rest else r.1.job_type ∷ rest

unfoldable pub schedule_kernel : List JobType → Loop → Loop
unfolding schedule_type
schedule_kernel [] s = s
schedule_kernel (type ∷ types) s =
    schedule_kernel types (if type.is_kernel then schedule_type type s else s)

abbrev pub unless_kernel : Option JobType → Loop → Loop
unless_kernel none s = s
unless_kernel (some type) s = if type.is_kernel then s else schedule_type type s

unfoldable pub schedule_user : List JobType → List String → Loop → Loop
unfolding get_job_type
schedule_user types [] s = s
schedule_user types (job_type ∷ job_types) s =
    schedule_user types job_types (unless_kernel (get_job_type job_type types) s)

unfoldable pub bootstrap : List JobType → ℕ → Table Job → Loop → Table Job × Loop
unfolding schedule_kernel schedule_user active_jobs types_with_jobs reset_stale_running_jobs
bootstrap types now t s =
    let reset = (reset_stale_running_jobs now t).1 in
    (
      reset,
      schedule_user types (types_with_jobs (active_jobs reset.rows)) (schedule_kernel types s),
    )
