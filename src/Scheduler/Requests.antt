-- ===== src/Scheduler/Requests.antt =====
-- What a user asks of the jobs: src/http/resources/jobs.py with the operations of
-- src/infrastructure/repositories/jobs.py that it calls. The registry of job types is a parameter, the
-- metadata of a job is its JSON text, which the stored job leaves out. A negative interval, which the
-- handler lets through, is left out. The type that an operation hands to `schedule_type`
-- is its answer, and the job that `run_now` is given is that of `job_run`.
use family_assistant_kernel.Prelude.{
  ℕ, Bool, true, false, ◌&&◌, ◌||◌, ◌==◌, not, str_eq, String, Option, none, some, List, [], ◌∷◌,
  if◌then◌else◌, select, map,
}
use family_assistant_kernel.Exec.{
  Exec, Result, ok, err, not_found, value_error, type_error, multiple_results, integrity,
}
use family_assistant_kernel.Storage
use family_assistant_kernel.Storage.{Table, find}
use family_assistant_kernel.Ledger.Columns.{Field, absent, null, given, is_absent}
use family_assistant_kernel.Scheduler.Jobs.{Job}

pub record JobType : Type 0 where
  pub job_type : String
  pub label : String
  pub name : String
  pub is_kernel : Bool
  pub parameters_model : Option (String → Bool)

pub record JobCreateBody : Type 0 where
  pub name : Option String
  pub job_type : String
  pub metadata : String
  pub interval_minutes : Option ℕ

pub record JobUpdateBody : Type 0 where
  pub name : Field String
  pub is_active : Field Bool

abbrev pub Jobs : Type 0
Jobs = Table Job

unfoldable pub jobs_for_user : ℕ → List (ℕ × Job) → List (ℕ × Job)
jobs_for_user user_id rows = select (λ r. r.1.user_id == user_id) rows

-- an empty name is no name
abbrev pub given_name : Option String → Option String
given_name none = none
given_name (some name) = if str_eq name "" then none else some name

unfoldable pub job_name : JobType → Option String → Option String
job_name type name = if str_eq type.label "system" then some type.name else given_name name

-- `scalar_one_or_none`
abbrev pub job_by_name : List (ℕ × Job) → Result (Option Job)
job_by_name [] = ok none
job_by_name ((id, job) ∷ []) = ok (some job)
job_by_name (r ∷ s ∷ rows) = err multiple_results

unfoldable pub jobs_named : ℕ → String → List (ℕ × Job) → List (ℕ × Job)
jobs_named user_id name rows = select (λ r. (r.1.user_id == user_id) && str_eq r.1.name name) rows

-- what `parameters_model` says of the metadata
abbrev pub accepts : Option (String → Bool) → String → Result {0} Unit
accepts none metadata = err type_error
accepts (some model) metadata = if model metadata then ok tt else err value_error

abbrev pub given_interval : Option ℕ → Result {0} Unit
given_interval none = err value_error
given_interval (some m) = if m == 0 then err value_error else ok tt

-- whether the name is free
abbrev pub unless_named : Result (Option Job) → Result {0} Unit
unless_named (err e) = err e
unless_named (ok (some job)) = err value_error
unless_named (ok none) = ok tt

abbrev pub insert_if : Result {0} Unit → Job → Exec Jobs (Option String)
insert_if (err e) job t = (err e, t)
insert_if (ok u) job t = (ok (some job.job_type), Storage.insert job t)

abbrev pub both : Result {0} Unit → Result {0} Unit → Result {0} Unit
both (err e) second = err e
both (ok u) second = second

-- a new job, with the defaults of its columns
abbrev pub new_job : ℕ → ℕ → String → JobCreateBody → Job
new_job now user_id name body = record {
  user_id = user_id;
  name = name;
  job_type = body.job_type;
  interval_minutes = body.interval_minutes;
  is_active = true;
  last_run_at = none;
  next_run_at = now;
  last_status = none;
  last_error = none;
  run_count = 0;
}

unfoldable pub create_named :
    ℕ → ℕ → JobCreateBody → JobType → Option String → Exec Jobs (Option String)
unfolding jobs_named
create_named now user_id body type none t = (err value_error, t)
create_named now user_id body type (some name) t =
    insert_if
      (both (unless_named (job_by_name (jobs_named user_id name t.rows)))
        (both (accepts type.parameters_model body.metadata) (given_interval body.interval_minutes)))
      (new_job now user_id name body) t

unfoldable pub create_of : ℕ → ℕ → JobCreateBody → Option JobType → Exec Jobs (Option String)
unfolding job_name create_named
create_of now user_id body none t = (err value_error, t)
create_of now user_id body (some type) t =
    if type.is_kernel
    then (err value_error, t)
    else create_named now user_id body type (job_name type body.name) t

unfoldable pub job_create :
    (String → Option JobType) → ℕ → ℕ → JobCreateBody → Exec Jobs (Option String)
unfolding create_of
job_create get_job_type now user_id body t =
    create_of now user_id body (get_job_type body.job_type) t

-- `where id = job_id and user_id = user_id`
abbrev pub is_owned : ℕ → ℕ → ℕ × Job → Bool
is_owned job_id user_id r = (r.0 == job_id) && (r.1.user_id == user_id)

abbrev pub or_old : {A : Type 0} → Field A → A → A
or_old absent old = old
or_old null old = old
or_old (given new) old = new

abbrev pub is_null : {A : Type 0} → Field A → Bool
is_null absent = false
is_null null = true
is_null (given v) = false

abbrev pub update_job : ℕ → ℕ → JobUpdateBody → List (ℕ × Job) → List (ℕ × Job)
update_job job_id user_id body rows =
    map
      (λ (r : ℕ × Job).
        if is_owned job_id user_id r
        then (
          r.0,
          record r.1 {
            name = or_old body.name r.1.name;
            is_active = or_old body.is_active r.1.is_active;
          },
        )
        else r)
      rows

-- the type that is scheduled, when it is registered and the job is active
abbrev pub scheduled : Option JobType → Job → Option String
scheduled none job = none
scheduled (some type) job = if job.is_active then some type.job_type else none

-- the rows that the statement is about, and the violation of a column that takes no null
abbrev pub answer_updated :
    (String → Option JobType) → Bool → List (ℕ × Job) → Jobs → Exec Jobs (Option String)
answer_updated get_job_type violated [] new t = (err not_found, t)
answer_updated get_job_type true (r ∷ rows) new t = (err integrity, t)
answer_updated get_job_type false (r ∷ rows) new t =
    (ok (scheduled (get_job_type r.1.job_type) r.1), new)

unfoldable pub job_update :
    (String → Option JobType) → ℕ → ℕ → JobUpdateBody → Exec Jobs (Option String)
unfolding is_absent
job_update get_job_type user_id job_id body t =
    if is_absent body.name && is_absent body.is_active
    then (err value_error, t)
    else (let updated = update_job job_id user_id body t.rows in
        answer_updated get_job_type (is_null body.name || is_null body.is_active)
          (select (is_owned job_id user_id) updated) (record t { rows = updated }) t)

abbrev pub answer_deleted : List (ℕ × Job) → Jobs → Exec Jobs (Option String)
answer_deleted [] new t = (err not_found, t)
answer_deleted (r ∷ rows) new t = (ok none, new)

unfoldable pub job_delete : ℕ → ℕ → Exec Jobs (Option String)
job_delete user_id job_id t =
    answer_deleted (select (is_owned job_id user_id) t.rows)
      (record t { rows = select (λ r. not (is_owned job_id user_id r)) t.rows }) t

abbrev pub if_own : ℕ → Option Job → Result Job
if_own user_id none = err value_error
if_own user_id (some job) = if job.user_id == user_id then ok job else err value_error

unfoldable pub job_run : ℕ → ℕ → Jobs → Result Job
unfolding find
job_run user_id job_id t = if_own user_id (find job_id t.rows)

-- the requests that write
pub data JobRequest : Type 0 where
  create_job : ℕ → JobCreateBody → JobRequest
  change_job : ℕ → JobUpdateBody → JobRequest
  remove_job : ℕ → JobRequest

unfoldable pub respond : (String → Option JobType) → ℕ → JobRequest → Exec Jobs (Option String)
unfolding job_create job_update job_delete
respond get_job_type user_id (create_job now body) = job_create get_job_type now user_id body
respond get_job_type user_id (change_job job_id body) = job_update get_job_type user_id job_id body
respond get_job_type user_id (remove_job job_id) = job_delete user_id job_id

-- requests of several users, one after the other, whether they raise or not
unfoldable pub respond_all : (String → Option JobType) → List (ℕ × JobRequest) → Jobs → Jobs
unfolding respond
respond_all get_job_type [] t = t
respond_all get_job_type ((user_id, k) ∷ ks) t =
    respond_all get_job_type ks (respond get_job_type user_id k t).1
