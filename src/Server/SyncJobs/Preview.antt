-- ===== src/Server/SyncJobs/Preview.antt =====
-- internal/server/syncjobs.go: previews of a merge, which write to neither server.
use tidy_dav.Prelude.{
  ℕ, ◌+◌, ◌*◌, Str, str, not, ◌&&◌, Option, none, some, [], ◌∷◌, ◌++◌, is_empty, list_eq, nat_eq,
  ◌==◌, if◌then◌else◌,
}
use tidy_dav.Prelude.Clock.{Time, second}
use tidy_dav.Prelude.Result.{Result, ok, err}
use tidy_dav.Store.Types
use tidy_dav.Store.Users.{User}
use tidy_dav.Store.SyncJobs.{SyncJob, sync_job_by_id}
use tidy_dav.Dav.Window.{parse_window}
use tidy_dav.Server.{
  Env, World, json, error, failure, tick, require_user, decode_json, is_http_url, Preview,
  MergePreview,
}
use tidy_dav.Server.SyncJobs.{is_kind, is_direction, is_conflict, or_stored, stored_a, stored_b}
use tidy_dav.Server.SyncJobs.Handlers.{Reply, merge_preview, owned_sync_job}

pub record SyncPreviewRequest : Type 0 where
  pub id : Str
  pub kind : Str
  pub direction : Str
  pub a_url : Str
  pub a_username : Str
  pub a_password : Str
  pub b_url : Str
  pub b_username : Str
  pub b_password : Str
  pub conflict : Str
  pub window_start : Str
  pub window_end : Str
  pub week_start : Str

abbrev week : ℕ
week = 7 * 24 * 3600 * second

abbrev pub week_of : Result Str (Time × Time) → Result Str (Time × Time)
week_of (ok (start, end)) = ok (start, start + week)
week_of (err e) = err (str "invalid week: " ++ e)

abbrev pub range_of : Result Str (Time × Time) → Result Str (Time × Time)
range_of (ok w) = ok w
range_of (err e) = err (str "invalid date range: " ++ e)

-- A saved window that does not parse is no window.
abbrev pub or_unbounded : Result Str (Time × Time) → Result Str (Time × Time)
or_unbounded (ok w) = ok w
or_unbounded (err e) = ok (0, 0)

abbrev own_job : User → Result Types.Error SyncJob → Option SyncJob
own_job u (err e) = none
own_job u (ok j) = if j.user_id == u.id then some j else none

module _ (env : Env) where
  -- The window of a preview: that of a week, if one is named, or else the range.
  unfoldable pub preview_window : Str → Str → Result Str (Time × Time) → Result Str (Time × Time)
  unfolding parse_window
  preview_window kind week range =
      if kind == str "carddav"
      then ok (0, 0)
      else if is_empty week
      then range
      else week_of (parse_window env.window week [])

  -- The answer to the merge of both collections.
  abbrev pub merged : Result Str (Result Str MergePreview) → World → Reply
  merged (err e) w = (error 400 e, w)
  merged (ok (err e)) w = (error 502 (str "preview failed: " ++ e), w)
  merged (ok (ok p)) w = (json 200 (merge_preview p), w)

  abbrev pub in_window : (Time × Time → Preview) → Result Str (Time × Time) → World → Reply
  in_window build (err e) w = (error 400 e, w)
  in_window build (ok window) w = merged (env.preview_merge (build window)) w

  -- The saved job that a request names, where it is the user's.
  unfoldable pub saved_job : User → Str → World → Option SyncJob × World
  unfolding sync_job_by_id
  saved_job u [] w = (none, w)
  saved_job u (c ∷ id) w = (own_job u (sync_job_by_id (failure env w) (c ∷ id) w.jobs), tick w)

  abbrev draft_preview : SyncPreviewRequest → Option SyncJob → Time × Time → Preview
  draft_preview req existing (from, to) = record {
    kind = req.kind;
    direction = req.direction;
    conflict = req.conflict;
    from = from;
    to = to;
    a_url = env.trim_space req.a_url;
    a_username = req.a_username;
    a_password = or_stored req.a_password (stored_a existing);
    b_url = env.trim_space req.b_url;
    b_username = req.b_username;
    b_password = or_stored req.b_password (stored_b existing);
  }

  abbrev with_saved : SyncPreviewRequest → Result Str (Time × Time) → Option SyncJob × World → Reply
  with_saved req window (existing, w) = in_window (draft_preview req existing) window w

  -- A window that is refused is refused before the saved job is read.
  unfoldable pub preview_in : User → SyncPreviewRequest → Result Str (Time × Time) → World → Reply
  unfolding saved_job
  preview_in u req (err e) w = (error 400 e, w)
  preview_in u req (ok window) w = with_saved req (ok window) (saved_job u req.id w)

  -- The message of what is wrong with the request before its window is read.
  unfoldable pub validate_preview : SyncPreviewRequest → Option Str
  unfolding is_http_url
  validate_preview req =
      if not (is_kind req.kind)
      then some (str "kind must be caldav or carddav")
      else if not (is_direction req.direction)
      then some (str "invalid direction")
      else if not (is_http_url env req.a_url && is_http_url env req.b_url)
      then some (str "both endpoints need a valid http(s) URL")
      else if not (is_conflict req.conflict)
      then some (str "invalid conflict policy")
      else none

  unfoldable pub preview_valid : User → SyncPreviewRequest → Option Str → World → Reply
  unfolding preview_window preview_in parse_window
  preview_valid u req (some message) w = (error 400 message, w)
  preview_valid u req none w =
      preview_in u req
        (preview_window req.kind (env.trim_space req.week_start) (
          range_of (
            parse_window env.window (env.trim_space req.window_start)
              (env.trim_space req.window_end))))
        w

  unfoldable pub handle_sync_preview : Option User → Option SyncPreviewRequest → World → Reply
  unfolding require_user decode_json preview_valid validate_preview
  handle_sync_preview user body w =
      require_user user (λ u. decode_json body (λ req. preview_valid u req (validate_preview req)))
        w

  abbrev job_preview : SyncJob → Time × Time → Preview
  job_preview j (from, to) = record {
    kind = j.kind;
    direction = j.direction;
    conflict = j.conflict;
    from = from;
    to = to;
    a_url = env.trim_space j.a_url;
    a_username = j.a_username;
    a_password = j.a_password;
    b_url = env.trim_space j.b_url;
    b_username = j.b_username;
    b_password = j.b_password;
  }

  -- `handlePreviewSavedSyncJob`, with the week of the query.
  unfoldable pub handle_preview_saved_sync_job : Option User → Str → Str → World → Reply
  unfolding require_user owned_sync_job preview_window parse_window
  handle_preview_saved_sync_job user id week w =
      require_user user
        (λ u. owned_sync_job env u id (λ j. in_window (job_preview j) (
          preview_window j.kind (env.trim_space week)
            (or_unbounded (parse_window env.window j.window_start j.window_end)))))
        w
