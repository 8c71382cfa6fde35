-- ===== src/Scheduler/Owners.antt =====
-- The jobs of a user against the requests of others (src/http/resources/jobs.py).
use family_assistant_kernel.Prelude.{
  ℕ, ◌≡◌, refl, ◌∙◌, Bool, true, false, ◌&&◌, ◌==◌, not, String, Option, none, some, List, [], ◌∷◌,
  ◌++◌, select, All, Bool-cases, inl, inr, arith,
}
use family_assistant_kernel.Exec.{Result, ok, err}
use family_assistant_kernel.Storage.{insert}
use family_assistant_kernel.Ledger.Columns.{is_absent}
use family_assistant_kernel.Scheduler.Jobs.{Job}
use family_assistant_kernel.Scheduler.Requests.{
  JobType, JobCreateBody, JobUpdateBody, Jobs, jobs_for_user, job_name, insert_if, create_named,
  create_of, job_create, is_owned, update_job, answer_updated, job_update, answer_deleted,
  job_delete, JobRequest, create_job, change_job, remove_job, respond, respond_all,
}

module _ (u v : ℕ) (other : (v == u) ≡ false) where
  append-jobs_for_user :
      (rows : List (ℕ × Job)) (id : ℕ) (job : Job)
      → job.user_id ≡ v
      → jobs_for_user u (rows ++ (id, job) ∷ []) ≡ jobs_for_user u rows
  unfolding jobs_for_user
  append-jobs_for_user [] id job h = ground (arith, other, h)
  append-jobs_for_user (r ∷ rows) id job h = ground (arith, append-jobs_for_user rows id job h)

  -- a row of v is none of u
  is_owned-other : (k : ℕ) (r : ℕ × Job) → is_owned k v r ≡ true → (r.1.user_id == u) ≡ false
  is_owned-other k r h = ground (arith, other, h)

  update_job-jobs_for_user :
      (k : ℕ) (body : JobUpdateBody) (rows : List (ℕ × Job))
      → jobs_for_user u (update_job k v body rows) ≡ jobs_for_user u rows
  unfolding jobs_for_user
  update_job-jobs_for_user k body [] = refl
  update_job-jobs_for_user k body (r ∷ rows) = elim (Bool-cases (is_owned k v r)) [
    | inl e ↦ rw (e, is_owned-other k r e) (update_job-jobs_for_user k body rows)
    | inr e ↦ rw (e, update_job-jobs_for_user k body rows) refl
  ]

  delete-jobs_for_user :
      (k : ℕ) (rows : List (ℕ × Job))
      → jobs_for_user u (select (λ r. not (is_owned k v r)) rows) ≡ jobs_for_user u rows
  unfolding jobs_for_user
  delete-jobs_for_user k [] = refl
  delete-jobs_for_user k (r ∷ rows) = elim (Bool-cases (is_owned k v r)) [
    | inl e ↦ rw (e, is_owned-other k r e) (delete-jobs_for_user k rows)
    | inr e ↦ rw (e, delete-jobs_for_user k rows) refl
  ]

  insert_if-other :
      (answer : Result {0} Unit) (job : Job) (t : Jobs)
      → job.user_id ≡ v
      → jobs_for_user u (insert_if answer job t).1.rows ≡ jobs_for_user u t.rows
  unfolding insert
  insert_if-other (err e) job t h = refl
  insert_if-other (ok w) job t h = append-jobs_for_user t.rows t.next job h

  create_named-other :
      (now : ℕ) (body : JobCreateBody) (type : JobType) (name : Option String) (t : Jobs)
      → jobs_for_user u (create_named now v body type name t).1.rows ≡ jobs_for_user u t.rows
  unfolding create_named
  create_named-other now body type none t = refl
  create_named-other now body type (some name) t = insert_if-other _ _ t refl

  create_of-other :
      (now : ℕ) (body : JobCreateBody) (type : Option JobType) (t : Jobs)
      → jobs_for_user u (create_of now v body type t).1.rows ≡ jobs_for_user u t.rows
  unfolding create_of
  create_of-other now body none t = refl
  create_of-other now body (some type) t = elim (Bool-cases type.is_kernel) [
    | inl e ↦ rw e refl
    | inr e ↦ rw e (create_named-other now body type (job_name type body.name) t)
  ]

  answer_updated-other :
      (get_job_type : String → Option JobType) (b : Bool) (rows : List (ℕ × Job)) (new t : Jobs)
      → jobs_for_user u new.rows ≡ jobs_for_user u t.rows
      → jobs_for_user u (answer_updated get_job_type b rows new t).1.rows ≡ jobs_for_user u t.rows
  answer_updated-other g b [] new t h = refl
  answer_updated-other g true (r ∷ rows) new t h = refl
  answer_updated-other g false (r ∷ rows) new t h = h

  answer_deleted-other :
      (rows : List (ℕ × Job)) (new t : Jobs)
      → jobs_for_user u new.rows ≡ jobs_for_user u t.rows
      → jobs_for_user u (answer_deleted rows new t).1.rows ≡ jobs_for_user u t.rows
  answer_deleted-other [] new t h = refl
  answer_deleted-other (r ∷ rows) new t h = h

  respond-other :
      (get_job_type : String → Option JobType) (k : JobRequest) (t : Jobs)
      → jobs_for_user u (respond get_job_type v k t).1.rows ≡ jobs_for_user u t.rows
  unfolding respond job_create job_update job_delete
  respond-other g (create_job now body) t = create_of-other now body (g body.job_type) t
  respond-other g (change_job k body) t =
      elim (Bool-cases (is_absent body.name && is_absent body.is_active)) [
        | inl e ↦ rw e refl
        | inr e ↦ rw e (answer_updated-other g _ _ _ t (update_job-jobs_for_user k body t.rows))
      ]
  respond-other g (remove_job k) t = answer_deleted-other _ _ t (delete-jobs_for_user k t.rows)

-- no request is by the user
abbrev pub ByOthers : ℕ → List (ℕ × JobRequest) → Type 0
ByOthers u ks = All (λ k. (k.0 == u) ≡ false) ks

-- The creations, updates and deletions that other users ask for, also of the ids of the user's jobs and
-- whether they return or raise, leave the list of the user's jobs as it was.
pub respond_all-jobs_for_user :
    (get_job_type : String → Option JobType) (u : ℕ) (ks : List (ℕ × JobRequest)) (t : Jobs)
    → ByOthers u ks
    → jobs_for_user u (respond_all get_job_type ks t).rows ≡ jobs_for_user u t.rows
unfolding respond_all
respond_all-jobs_for_user g u [] t h = refl
respond_all-jobs_for_user g u ((v, k) ∷ ks) t h =
    respond_all-jobs_for_user g u ks (respond g v k t).1 h.1 ∙ respond-other u v h.0 g k t
