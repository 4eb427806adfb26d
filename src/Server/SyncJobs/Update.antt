-- ===== src/Server/SyncJobs/Update.antt =====
-- internal/server/syncjobs.go: what an update of a job keeps.
use tidy_dav.Prelude.{
  ℕ, ◌+◌, ◌≡◌, refl, Str, true, none, some, List, [], ◌∷◌, list_eq, nat_eq, ◌==◌, if◌then◌else◌,
  Bool-cases, inl, inr, eq_of_==,
}
use tidy_dav.Prelude.Clock.{Time}
use tidy_dav.Prelude.Result.{Result, ok, err}
use tidy_dav.Store.Types
use tidy_dav.Store.Users.{User}
use tidy_dav.Store.SyncJobs.{
  SyncJob, first_job, sync_job_by_id, set_jobs, is_owned_job, config_row, update_jobs,
  update_sync_job,
}
use tidy_dav.Server.{Env, World, clock, tick, require_user, decode_json, audit}
use tidy_dav.Server.SyncJobs.{
  SyncJobRequest, job_from_request, validate_sync_job_request, or_stored,
}
use tidy_dav.Server.SyncJobs.Handlers.{
  owned_sync_job, respond_again, updated, update_valid, handle_update_sync_job,
}

first_ok :
    (g j : SyncJob) (rest : Result Types.Error SyncJob)
    → (if true then ok g else rest) ≡ ok j
    → g ≡ j
first_ok g j rest e = cc

first_job-found :
    (id : Str) (js : List SyncJob) (j : SyncJob)
    → first_job (λ k. k.id == id) js ≡ ok j
    → (j.id == id) ≡ true
unfolding first_job
first_job-found id [] j e = cc
first_job-found id (k ∷ ks) j e = elim (Bool-cases (k.id == id)) [
  | inl t ↦
      let same : k ≡ j = first_ok k j (first_job (λ l. l.id == id) ks) (rw t at e) in rw (← same) t
  | inr f ↦ first_job-found id ks j (rw f at e)
]

-- The first row with an id is changed where it is the user's.
first_job-set_jobs :
    (id u : Str) (set : SyncJob → SyncJob) (js : List SyncJob) (j : SyncJob)
    → ((k : SyncJob) → (set k).id ≡ k.id)
    → (j.user_id == u) ≡ true
    → first_job (λ k. k.id == id) js ≡ ok j
    → first_job (λ k. k.id == id) (set_jobs (is_owned_job id u) set js) ≡ ok (set j)
unfolding first_job set_jobs
first_job-set_jobs id u set [] j same own e = cc
first_job-set_jobs id u set (k ∷ ks) j same own e = elim (Bool-cases (k.id == id)) [
  | inl t ↦
      let eq : k ≡ j = first_ok k j (first_job (λ l. l.id == id) ks) (rw t at e) in
      let old : (j.id == id) ≡ true = rw (← eq) t in
      let new : ((set j).id == id) ≡ true = rw (same j) old in rw (eq, old, own, new) refl
  | inr f ↦ rw (f, f) (first_job-set_jobs id u set ks j same own (rw f at e))
]

sync_job_by_id-set_jobs :
    (id old u : Str) (set : SyncJob → SyncJob) (js js' : List SyncJob) (j : SyncJob)
    → js' ≡ set_jobs (is_owned_job old u) set js
    → old ≡ id
    → ((k : SyncJob) → (set k).id ≡ k.id)
    → (j.user_id == u) ≡ true
    → sync_job_by_id none id js ≡ ok j
    → sync_job_by_id none id js' ≡ ok (set j)
unfolding sync_job_by_id
sync_job_by_id-set_jobs id old u set js js' j after eq same own found =
    rw (after, eq) (first_job-set_jobs id u set js j same own found)

updated-jobs :
    (env : Env) (action : Str) (u : User)
    (q : Result Types.Error (Unit {0}) × SyncJob × List SyncJob) (w : World)
    → (updated env action u q w).1.jobs ≡ q.2
unfolding updated respond_again audit
updated-jobs env action u (err e, j, rows) w = refl
updated-jobs env action u (ok x, j, rows) w = refl

update_sync_job-rows :
    (env : Env) (u : User) (id : Str) (req : SyncJobRequest) (js : List SyncJob) (j : SyncJob)
    (now : Time)
    → (update_sync_job none now (job_from_request env j.id u.id req (some j)) js).2
      ≡ set_jobs
          (is_owned_job j.id u.id)
          (config_row (record (job_from_request env j.id u.id req (some j)) { updated_at = now }))
          js
unfolding update_sync_job update_jobs job_from_request
update_sync_job-rows env u id req js j now = refl

module _ (env : Env) (u : User) (id : Str) (req : SyncJobRequest) (w : World) (j : SyncJob)
    (works : (n : ℕ) → env.db n ≡ none) (found : sync_job_by_id none id w.jobs ≡ ok j)
    (own : (j.user_id == u.id) ≡ true) (valid : validate_sync_job_request env req ≡ none) where
  -- The job that is written.
  abbrev written : SyncJob
  written = record (job_from_request env j.id u.id req (some j)) { updated_at = clock env (tick w) }

  handled-jobs :
      (handle_update_sync_job env (some u) id (some req) w).1.jobs
      ≡ set_jobs (is_owned_job j.id u.id) (config_row written) w.jobs
  unfolding handle_update_sync_job require_user owned_sync_job decode_json update_valid
  handled-jobs =
      rw (works w.statements, found, own, valid, updated-jobs, works (w.statements + 1))
        (update_sync_job-rows env u id req w.jobs j (clock env (tick w)))

-- An update by the owner of a job in the table, with a valid request and a database that works,
-- keeps the owner, the state and the outcome of the last run, and the passwords that the request
-- leaves out.
pub handle_update_sync_job-keeps :
    (env : Env) (u : User) (id : Str) (req : SyncJobRequest) (w : World) (j : SyncJob)
    → ((n : ℕ) → env.db n ≡ none)
    → sync_job_by_id none id w.jobs ≡ ok j
    → (j.user_id == u.id) ≡ true
    → validate_sync_job_request env req ≡ none
    → (k : SyncJob) × (sync_job_by_id none id
          (handle_update_sync_job env (some u) id (some req) w).1.jobs
        ≡ ok k)
      × (k.user_id ≡ j.user_id)
      × (k.state ≡ j.state)
      × (k.last_run_at ≡ j.last_run_at)
      × (k.last_status ≡ j.last_status)
      × (k.a_password ≡ or_stored req.a_password j.a_password)
      × (k.b_password ≡ or_stored req.b_password j.b_password)
unfolding config_row sync_job_by_id job_from_request
handle_update_sync_job-keeps env u id req w j works found own valid =
    let f = written env u id req w j works found own valid in
    let same : j.id ≡ id = eq_of_== j.id id (first_job-found id w.jobs j found) in
    (
      config_row f j,
      sync_job_by_id-set_jobs id j.id u.id (config_row f) w.jobs _ j
          (handled-jobs env u id req w j works found own valid) same (λ k. refl) own found,
      refl,
      refl,
      refl,
      refl,
      refl,
      refl,
    )
