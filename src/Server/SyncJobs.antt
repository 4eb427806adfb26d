-- ===== src/Server/SyncJobs.antt =====
-- internal/server/syncjobs.go: what a request of a sync job may ask for, the job that is made of it,
-- and what a response shows.
pub mod Handlers
pub mod Preview
pub mod Update
use tidy_dav.Prelude.{
  ℕ, ◌+◌, Str, str, Bool, true, false, not, ◌&&◌, ◌||◌, Option, none, some, List, [], ◌∷◌, ◌++◌,
  is_empty, list_eq, nat_eq, ◌==◌, if◌then◌else◌,
}
use tidy_dav.Prelude.Int.{ℤ, pos, leb_ℤ}
use tidy_dav.Prelude.Clock.{Time, is_zero}
use tidy_dav.Prelude.Result.{Result, ok, err}
use tidy_dav.Store.SyncJobs.{SyncJob}
use tidy_dav.Dav.Window.{parse_window}
use tidy_dav.Server.{Env, is_http_url}

pub record SyncJobRequest : Type 0 where
  pub name : Str
  pub kind : Str
  pub direction : Str
  pub conflict : Str
  pub a_url : Str
  pub a_username : Str
  pub a_password : Str
  pub b_url : Str
  pub b_username : Str
  pub b_password : Str
  pub interval_seconds : ℤ
  pub enabled : Bool
  pub window_start : Str
  pub window_end : Str

pub record SyncJobResponse : Type 0 where
  pub id : Str
  pub name : Str
  pub kind : Str
  pub direction : Str
  pub conflict : Str
  pub a_url : Str
  pub a_username : Str
  pub a_password_set : Bool
  pub b_url : Str
  pub b_username : Str
  pub b_password_set : Bool
  pub interval_seconds : ℤ
  pub enabled : Bool
  pub window_start : Str
  pub window_end : Str
  pub last_run_at : Str
  pub last_status : Str
  pub created_at : Str
  pub updated_at : Str

abbrev pub or_stored : Str → Str → Str
or_stored [] stored = stored
or_stored (c ∷ s) stored = c ∷ s

abbrev pub stored_a : Option SyncJob → Str
stored_a none = []
stored_a (some j) = j.a_password

abbrev pub stored_b : Option SyncJob → Str
stored_b none = []
stored_b (some j) = j.b_password

abbrev pub is_kind : Str → Bool
is_kind k = k == str "caldav" || k == str "carddav"

abbrev pub is_direction : Str → Bool
is_direction d = d == str "a-to-b" || (d == str "b-to-a" || d == str "bidirectional")

abbrev pub is_conflict : Str → Bool
is_conflict c = is_empty c || (c == str "newest-wins" || c == str "source-wins")

module _ (env : Env) where
  -- The job of a request: an omitted password is the stored one.
  unfoldable pub job_from_request : Str → Str → SyncJobRequest → Option SyncJob → SyncJob
  job_from_request id user_id req existing = record {
    id = id;
    user_id = user_id;
    name = env.trim_space req.name;
    kind = req.kind;
    direction = req.direction;
    conflict = or_stored req.conflict (str "newest-wins");
    a_url = env.trim_space req.a_url;
    a_username = req.a_username;
    a_password = or_stored req.a_password (stored_a existing);
    b_url = env.trim_space req.b_url;
    b_username = req.b_username;
    b_password = or_stored req.b_password (stored_b existing);
    interval_seconds = if leb_ℤ req.interval_seconds (pos 0) then pos 900 else req.interval_seconds;
    enabled = req.enabled;
    window_start = env.trim_space req.window_start;
    window_end = env.trim_space req.window_end;
    state = [];
    last_run_at = 0;
    last_status = [];
    created_at = 0;
    updated_at = 0;
  }

  unfoldable pub to_sync_job_response : SyncJob → SyncJobResponse
  to_sync_job_response j = record {
    id = j.id;
    name = j.name;
    kind = j.kind;
    direction = j.direction;
    conflict = j.conflict;
    a_url = j.a_url;
    a_username = j.a_username;
    a_password_set = not (is_empty j.a_password);
    b_url = j.b_url;
    b_username = j.b_username;
    b_password_set = not (is_empty j.b_password);
    interval_seconds = j.interval_seconds;
    enabled = j.enabled;
    window_start = j.window_start;
    window_end = j.window_end;
    last_run_at = if is_zero j.last_run_at then [] else env.format_time j.last_run_at;
    last_status = j.last_status;
    created_at = env.format_time j.created_at;
    updated_at = env.format_time j.updated_at;
  }

  abbrev pub window_error : {A : Type 0} → Result Str A → Option Str
  window_error (ok w) = none
  window_error (err e) = some (str "invalid date range: " ++ e)

  -- The message of what is wrong with the request, if anything is.
  unfoldable pub validate_sync_job_request : SyncJobRequest → Option Str
  unfolding is_http_url parse_window
  validate_sync_job_request req =
      if is_empty (env.trim_space req.name)
      then some (str "name is required")
      else if not (is_kind req.kind)
      then some (str "kind must be caldav or carddav")
      else if not (is_direction req.direction)
      then some (str "invalid direction")
      else if not (is_conflict req.conflict)
      then some (str "invalid conflict policy")
      else if not (is_http_url env req.a_url && is_http_url env req.b_url)
      then some (str "both endpoints need a valid http(s) URL")
      else window_error (
          parse_window env.window (env.trim_space req.window_start) (env.trim_space req.window_end))
