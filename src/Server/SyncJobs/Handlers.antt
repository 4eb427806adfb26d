-- ===== src/Server/SyncJobs/Handlers.antt =====
-- internal/server/syncjobs.go: the handlers of sync jobs.
use tidy_dav.Prelude.{
  ℕ, Str, str, Bool, true, false, Option, none, some, List, [], list_eq, nat_eq, ◌==◌, map,
}
use tidy_dav.Prelude.Result.{Result, ok, err}
use tidy_dav.Store.Types
use tidy_dav.Store.Types.{not_found, failed}
use tidy_dav.Store.Users.{User}
use tidy_dav.Store.SyncJobs.{
  SyncJob, create_sync_job, update_sync_job, delete_sync_job, reset_sync_job_state, sync_job_by_id,
  sync_jobs_by_user,
}
use tidy_dav.Server.{
  Env, World, Response, json, error, page_not_found, no_content, server_error, failure, clock, tick,
  draw, require_user, decode_json, audit, MergePreview,
}
use tidy_dav.Server.SyncJobs.{
  SyncJobRequest, SyncJobResponse, job_from_request, to_sync_job_response,
  validate_sync_job_request,
}

pub data Body : Type 0 where
  jobs : List SyncJobResponse → Body
  job : SyncJobResponse → Body
  merge_preview : MergePreview → Body

abbrev pub Reply : Type 0
Reply = Response Body × World

module _ (env : Env) where
  abbrev pub set_jobs_of : List SyncJob → World → World
  set_jobs_of rows w = tick (record w { jobs = rows })

  abbrev pub respond : ℕ → SyncJob → World → Reply
  respond status j w = (json status (job (to_sync_job_response env j)), w)

  -- The first argument says whether the job is the user's.
  abbrev pub if_owner : Bool → SyncJob → (SyncJob → World → Reply) → World → Reply
  if_owner true j handler w = handler j w
  if_owner false j handler w = (page_not_found, w)

  abbrev pub owned_result :
      User → Result Types.Error SyncJob → (SyncJob → World → Reply) → World → Reply
  owned_result u (err not_found) handler w = (page_not_found, w)
  owned_result u (err (failed c e)) handler w = (server_error, w)
  owned_result u (ok j) handler w = if_owner (j.user_id == u.id) j handler w

  -- `ownedSyncJob`
  unfoldable pub owned_sync_job : User → Str → (SyncJob → World → Reply) → World → Reply
  unfolding sync_job_by_id
  owned_sync_job u id handler w =
      owned_result u (sync_job_by_id (failure env w) id w.jobs) handler (tick w)

  -- A job that is read again, or the one at hand where it cannot be.
  abbrev reloaded : Result Types.Error SyncJob → SyncJob → SyncJob
  reloaded (ok j) old = j
  reloaded (err e) old = old

  unfoldable pub respond_again : SyncJob → World → Reply
  unfolding sync_job_by_id to_sync_job_response
  respond_again j w = respond 200 (reloaded (sync_job_by_id (failure env w) j.id w.jobs) j) (tick w)

  abbrev pub listed : Result Types.Error (List SyncJob) → World → Reply
  listed (err e) w = (server_error, w)
  listed (ok js) w = (json 200 (jobs (map (to_sync_job_response env) js)), w)

  unfoldable pub handle_list_sync_jobs : Option User → World → Reply
  unfolding require_user sync_jobs_by_user to_sync_job_response
  handle_list_sync_jobs user w =
      require_user user (λ u w. listed (sync_jobs_by_user (failure env w) u.id w.jobs) (tick w)) w

  unfoldable pub created :
      User → Result Types.Error (Unit {0}) × SyncJob × List SyncJob → World → Reply
  unfolding audit to_sync_job_response
  created u (err e, j, rows) w = (server_error, set_jobs_of rows w)
  created u (ok _, j, rows) w =
      respond 201 j (audit env u (str "sync.create") j.id j.name (set_jobs_of rows w))

  unfoldable pub create_with_id : User → SyncJobRequest → Result Str Str → World → Reply
  unfolding created create_sync_job job_from_request
  create_with_id u req (err e) w = (server_error, w)
  create_with_id u req (ok id) w =
      created u
        (create_sync_job (failure env w) (clock env w) (job_from_request env id u.id req none)
          w.jobs)
        w

  -- The second argument is the message of what is wrong with the request.
  unfoldable pub create_valid : User → Option Str → SyncJobRequest → World → Reply
  unfolding create_with_id
  create_valid u (some message) req w = (error 400 message, w)
  create_valid u none req w = create_with_id u req (env.random_token w.drawn) (draw w)

  unfoldable pub handle_create_sync_job : Option User → Option SyncJobRequest → World → Reply
  unfolding require_user decode_json create_valid validate_sync_job_request
  handle_create_sync_job user body w =
      require_user user
        (λ u. decode_json body (λ req. create_valid u (validate_sync_job_request env req) req)) w

  unfoldable pub handle_get_sync_job : Option User → Str → World → Reply
  unfolding require_user owned_sync_job to_sync_job_response
  handle_get_sync_job user id w = require_user user (λ u. owned_sync_job u id (respond 200)) w

  -- What is left to do after `UpdateSyncJob` and `ResetSyncJobState`.
  unfoldable pub updated :
      Str → User → Result Types.Error (Unit {0}) × SyncJob × List SyncJob → World → Reply
  unfolding audit respond_again
  updated action u (err e, j, rows) w = (server_error, set_jobs_of rows w)
  updated action u (ok _, j, rows) w =
      respond_again j (audit env u action j.id j.name (set_jobs_of rows w))

  unfoldable pub update_valid : User → SyncJob → Option Str → SyncJobRequest → World → Reply
  unfolding updated update_sync_job job_from_request
  update_valid u j (some message) req w = (error 400 message, w)
  update_valid u j none req w =
      updated (str "sync.update") u
        (update_sync_job (failure env w) (clock env w) (job_from_request env j.id u.id req (some j))
          w.jobs)
        w

  unfoldable pub handle_update_sync_job : Option User → Str → Option SyncJobRequest → World → Reply
  unfolding require_user owned_sync_job decode_json update_valid validate_sync_job_request
  handle_update_sync_job user id body w =
      require_user user
        (λ u.
          owned_sync_job u id (λ j.
            decode_json body (λ req. update_valid u j (validate_sync_job_request env req) req)))
        w

  unfoldable pub deleted : User → Str → Result Types.Error (Unit {0}) × List SyncJob → World → Reply
  unfolding audit
  deleted u id (err not_found, rows) w = (page_not_found, set_jobs_of rows w)
  deleted u id (err (failed c e), rows) w = (server_error, set_jobs_of rows w)
  deleted u id (ok _, rows) w =
      (no_content, audit env u (str "sync.delete") id [] (set_jobs_of rows w))

  unfoldable pub handle_delete_sync_job : Option User → Str → World → Reply
  unfolding require_user deleted delete_sync_job
  handle_delete_sync_job user id w =
      require_user user (λ u w. deleted u id (delete_sync_job (failure env w) id u.id w.jobs) w) w

  abbrev with_job :
      SyncJob
      → Result Types.Error (Unit {0}) × List SyncJob
      → Result Types.Error (Unit {0}) × SyncJob × List SyncJob
  with_job j (r, rows) = (r, j, rows)

  unfoldable pub handle_reset_sync_job_state : Option User → Str → World → Reply
  unfolding require_user owned_sync_job updated reset_sync_job_state
  handle_reset_sync_job_state user id w =
      require_user user
        (λ u. owned_sync_job u id (λ j w.
          updated (str "sync.reset_state") u
            (with_job j (reset_sync_job_state (failure env w) (clock env w) j.id u.id w.jobs)) w))
        w

  -- What `RunOne` answers: whether the job was free, and the table after the run.
  abbrev pub ran : SyncJob → Bool × List SyncJob → World → Reply
  ran j (false, rows) w =
      (error 409 (str "a run of this job is already in progress"), set_jobs_of rows w)
  ran j (true, rows) w = respond_again j (set_jobs_of rows w)

  unfoldable pub handle_run_sync_job : Option User → Str → World → Reply
  unfolding require_user owned_sync_job respond_again
  handle_run_sync_job user id w =
      require_user user
        (λ u. owned_sync_job u id (λ j w. ran j (env.run_one w.statements j w.jobs) w)) w
