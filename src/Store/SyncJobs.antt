-- ===== src/Store/SyncJobs.antt =====
-- internal/store/syncjobs.go: the table of sync jobs. An argument of type `Option Str` is the error
-- of a statement, if it fails.
use tidy_dav.Prelude.{
  Str, str, Bool, true, false, not, ◌&&◌, Option, none, some, List, [], ◌∷◌, any, leb, list_eq,
  nat_eq, ◌==◌, if◌then◌else◌,
}
use tidy_dav.Prelude.Int.{ℤ}
use tidy_dav.Prelude.Result.{Result, ok, err}
use tidy_dav.Prelude.Clock.{Time, is_zero, at_second}
use tidy_dav.Store.Types.{Error, not_found, failed, query}
use tidy_dav.Store.Feeds.{check_affected, notif_or_empty}

pub record SyncJob : Type 0 where
  pub id : Str
  pub user_id : Str
  pub name : Str
  pub kind : Str
  pub direction : Str
  pub conflict : Str
  pub a_url : Str
  pub a_username : Str
  pub a_password : Str
  pub b_url : Str
  pub b_username : Str
  pub b_password : Str
  pub interval_seconds : ℤ
  pub enabled : Bool
  pub window_start : Str
  pub window_end : Str
  pub state : Str
  pub last_run_at : Time
  pub last_status : Str
  pub created_at : Time
  pub updated_at : Time

unfoldable pub stamped_job : Time → SyncJob → SyncJob
stamped_job now j = record j {
  created_at = if is_zero j.created_at then now else j.created_at;
  updated_at = now;
}

unfoldable pub job_row : SyncJob → SyncJob
unfolding notif_or_empty
job_row j = record j {
  state = notif_or_empty j.state;
  last_run_at = at_second j.last_run_at;
  created_at = at_second j.created_at;
  updated_at = at_second j.updated_at;
}

-- The first argument says whether a row has the id.
unfoldable pub insert_job_unless :
    Bool → SyncJob → List SyncJob → Result Error (Unit {0}) × List SyncJob
insert_job_unless true j js = (err (failed (str "create sync job") (str "UNIQUE")), js)
insert_job_unless false j js = (ok tt, j ∷ js)

unfoldable pub insert_job :
    Option Str → SyncJob → List SyncJob → Result Error (Unit {0}) × List SyncJob
unfolding insert_job_unless
insert_job none j js = insert_job_unless (any (λ k. k.id == j.id) js) j js
insert_job (some e) j js = (err (failed (str "create sync job") e), js)

-- `CreateSyncJob`, with the job that it leaves to the caller.
unfoldable pub create_sync_job :
    Option Str → Time → SyncJob → List SyncJob → Result Error (Unit {0}) × SyncJob × List SyncJob
unfolding stamped_job job_row insert_job
create_sync_job db now j js =
    let (r, rows) = insert_job db (job_row (stamped_job now j)) js in (r, stamped_job now j, rows)

abbrev pub is_owned_job : Str → Str → SyncJob → Bool
is_owned_job id user_id j = j.id == id && j.user_id == user_id

unfoldable pub set_jobs : (SyncJob → Bool) → (SyncJob → SyncJob) → List SyncJob → List SyncJob
set_jobs p set [] = []
set_jobs p set (j ∷ js) = (if p j then set j else j) ∷ set_jobs p set js

-- The columns of the configuration: the state and the last run stay.
unfoldable pub config_row : SyncJob → SyncJob → SyncJob
config_row j row = record row {
  name = j.name;
  kind = j.kind;
  direction = j.direction;
  conflict = j.conflict;
  a_url = j.a_url;
  a_username = j.a_username;
  a_password = j.a_password;
  b_url = j.b_url;
  b_username = j.b_username;
  b_password = j.b_password;
  interval_seconds = j.interval_seconds;
  enabled = j.enabled;
  window_start = j.window_start;
  window_end = j.window_end;
  updated_at = at_second j.updated_at;
}

unfoldable pub update_jobs :
    Option Str → SyncJob → List SyncJob → Result Error (Unit {0}) × List SyncJob
unfolding set_jobs config_row check_affected
update_jobs (some e) j js = (err (failed (str "update sync job") e), js)
update_jobs none j js = (
  check_affected (any (is_owned_job j.id j.user_id) js),
  set_jobs (is_owned_job j.id j.user_id) (config_row j) js,
)

-- `UpdateSyncJob`, with the job that it leaves to the caller.
unfoldable pub update_sync_job :
    Option Str → Time → SyncJob → List SyncJob → Result Error (Unit {0}) × SyncJob × List SyncJob
unfolding update_jobs
update_sync_job db now j js =
    let j' = record j { updated_at = now } in let (r, rows) = update_jobs db j' js in (r, j', rows)

unfoldable pub update_sync_job_run :
    Option Str
    → Time
    → Str
    → Str
    → Time
    → Str
    → List SyncJob
    → Result Error (Unit {0}) × List SyncJob
unfolding set_jobs notif_or_empty
update_sync_job_run (some e) now id state last_run status js =
    (err (failed (str "update sync job run") e), js)
update_sync_job_run none now id state last_run status js = (
  ok tt,
  set_jobs (λ j. j.id == id)
      (λ j. record j {
        state = notif_or_empty state;
        last_run_at = at_second last_run;
        last_status = status;
        updated_at = at_second now;
      })
      js,
)

abbrev pub cleared : Time → SyncJob → SyncJob
cleared now j = record j { state = []; last_status = []; updated_at = at_second now }

unfoldable pub reset_sync_job_state :
    Option Str → Time → Str → Str → List SyncJob → Result Error (Unit {0}) × List SyncJob
unfolding set_jobs check_affected
reset_sync_job_state (some e) now id user_id js = (err (failed (str "reset sync job state") e), js)
reset_sync_job_state none now id user_id js = (
  check_affected (any (is_owned_job id user_id) js),
  set_jobs (is_owned_job id user_id) (cleared now) js,
)

unfoldable pub drop_jobs : (SyncJob → Bool) → List SyncJob → List SyncJob
drop_jobs p [] = []
drop_jobs p (j ∷ js) = let rest = drop_jobs p js in if p j then rest else j ∷ rest

unfoldable pub delete_sync_job :
    Option Str → Str → Str → List SyncJob → Result Error (Unit {0}) × List SyncJob
unfolding drop_jobs check_affected
delete_sync_job (some e) id user_id js = (err (failed (str "delete sync job") e), js)
delete_sync_job none id user_id js =
    (check_affected (any (is_owned_job id user_id) js), drop_jobs (is_owned_job id user_id) js)

unfoldable pub first_job : (SyncJob → Bool) → List SyncJob → Result Error SyncJob
first_job p [] = err not_found
first_job p (j ∷ js) = let rest = first_job p js in if p j then ok j else rest

unfoldable pub sync_job_by_id : Option Str → Str → List SyncJob → Result Error SyncJob
unfolding first_job
sync_job_by_id none id js = first_job (λ j. j.id == id) js
sync_job_by_id (some e) id js = err (failed (str "query sync job") e)

-- `ORDER BY created_at`
unfoldable pub place_job : SyncJob → List SyncJob → List SyncJob
place_job j [] = j ∷ []
place_job j (k ∷ ks) =
    let later = k ∷ place_job j ks in if leb j.created_at k.created_at then j ∷ k ∷ ks else later

unfoldable pub jobs_in_order : List SyncJob → List SyncJob
unfolding place_job
jobs_in_order [] = []
jobs_in_order (j ∷ js) = place_job j (jobs_in_order js)

unfoldable pub sync_jobs_by_user : Option Str → Str → List SyncJob → Result Error (List SyncJob)
unfolding jobs_in_order drop_jobs
sync_jobs_by_user db user_id js =
    query (str "query sync jobs") db
      (jobs_in_order (drop_jobs (λ j. not (j.user_id == user_id)) js))

unfoldable pub all_enabled_sync_jobs : Option Str → List SyncJob → Result Error (List SyncJob)
unfolding jobs_in_order drop_jobs
all_enabled_sync_jobs db js =
    query (str "query enabled sync jobs") db (jobs_in_order (drop_jobs (λ j. not j.enabled) js))
