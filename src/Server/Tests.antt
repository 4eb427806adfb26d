-- ===== src/Server/Tests.antt =====
-- internal/server: two feeds of one user, a job, and requests of another user.
use tidy_dav.Prelude.{◌≡◌, refl, str, true, Option, none, some, List, [], ◌∷◌, map, list_eq, nat_eq}
use tidy_dav.Prelude.Int.{pos}
use tidy_dav.Prelude.Result.{ok}
use tidy_dav.Store.Users.{User}
use tidy_dav.Store.Feeds.{first_feed, feed_by, feed_by_secret}
use tidy_dav.Store.Feeds.Owned.{rows_of}
use tidy_dav.Dav.Href.{hex_digit}
use tidy_dav.Store.SyncJobs.{SyncJob, first_job, sync_job_by_id}
use tidy_dav.Dav.Window.{parse_bound, parse_window}
use tidy_dav.Server.{is_http_url}
use tidy_dav.Server.Feeds.{by_url, preserve_source_secrets}
use tidy_dav.Server.Feeds.Isolation.{Request, list, delete, rotate, handle_all, handle_all-rows_of}
use tidy_dav.Server.Feeds.Secrets.{unchanged, without_password, preserve_source_secrets-unchanged}
use tidy_dav.Server.Serve.{
  unauthorized, not_modified, calendar, entity_tag, etag_matches, is_allowed, valid_basic_auth,
  handle_ics,
}
use tidy_dav.Server.Serve.Guarded.{IsJustified, handle_ics-IsJustified}
use tidy_dav.Server.SyncJobs.{SyncJobRequest, validate_sync_job_request}
use tidy_dav.Server.SyncJobs.Handlers.{handle_update_sync_job}
use tidy_dav.Server.SyncJobs.Update.{handle_update_sync_job-keeps}
use tidy_dav.Server.Sample.{env, user, source, sources, job, world}

abbrev requests : List (Option User × Request)
requests =
    (some (user (str "bert")), delete (str "f"))
    ∷ (none, list)
    ∷ (some (user (str "bert")), rotate (str "g"))
    ∷ []

handle_all-rows_of_example :
    rows_of (str "anna") (handle_all env requests world).feeds ≡ rows_of (str "anna") world.feeds
unfolding list_eq nat_eq
handle_all-rows_of_example =
    handle_all-rows_of env (str "anna") requests world (refl, (tt, (refl, tt)))

-- Without its first source, which has a password, the second one has that password: it stands where
-- the first one stood.
moved :
    preserve_source_secrets
      (source (str "v") [] ∷ [])
      (unchanged (source (str "v") []) ∷ [])
      sources
    ≡ source (str "v") (str "p") ∷ []
unfolding preserve_source_secrets by_url list_eq nat_eq
moved = refl

preserve_source_secrets-unchanged_example :
    preserve_source_secrets (map without_password sources) (map unchanged sources) sources ≡ sources
unfolding list_eq nat_eq
preserve_source_secrets-unchanged_example =
    preserve_source_secrets-unchanged sources (refl, (refl, tt))

guarded : (handle_ics env (str "s") (some (str "x", str "i")) [] world).0 ≡ unauthorized
unfolding handle_ics feed_by_secret feed_by first_feed is_allowed valid_basic_auth list_eq nat_eq
guarded = refl

given :
    (handle_ics env (str "s") (some (str "x", str "h")) [] world).0
    ≡ calendar (str "\"414243\"") (str "ABC")
unfolding handle_ics feed_by_secret feed_by first_feed is_allowed valid_basic_auth list_eq nat_eq
    entity_tag etag_matches hex_digit
given = refl

known :
    (handle_ics env (str "s") (some (str "x", str "h")) (str "W/\"414243\"") world).0
    ≡ not_modified (str "\"414243\"")
unfolding handle_ics feed_by_secret feed_by first_feed is_allowed valid_basic_auth list_eq nat_eq
    entity_tag etag_matches hex_digit
known = refl

handle_ics-IsJustified_example :
    IsJustified env
      (some (str "x", str "h"))
      []
      world
      (str "s")
      (handle_ics env (str "s") (some (str "x", str "h")) [] world).0
      (handle_ics env (str "s") (some (str "x", str "h")) [] world).1.feeds
handle_ics-IsJustified_example =
    handle_ics-IsJustified env (str "s") (some (str "x", str "h")) [] world

-- A request with a new name, a new password for the first endpoint and none for the second.
abbrev job_request : SyncJobRequest
job_request = record {
  name = str "m";
  kind = str "caldav";
  direction = str "bidirectional";
  conflict = [];
  a_url = str "u";
  a_username = [];
  a_password = str "r";
  b_url = str "v";
  b_username = [];
  b_password = [];
  interval_seconds = pos 900;
  enabled = true;
  window_start = [];
  window_end = [];
}

is_found : sync_job_by_id none (str "j") world.jobs ≡ ok job
unfolding sync_job_by_id first_job list_eq nat_eq
is_found = refl

is_valid : validate_sync_job_request env job_request ≡ none
unfolding validate_sync_job_request is_http_url parse_window parse_bound list_eq nat_eq
is_valid = refl

handle_update_sync_job-keeps_example :
    (k : SyncJob) × (sync_job_by_id none
        (str "j")
        (handle_update_sync_job env
          (some (user (str "anna")))
          (str "j")
          (some job_request)
          world).1.jobs
      ≡ ok k)
    × (k.user_id ≡ str "anna")
    × (k.state ≡ str "{}")
    × (k.last_run_at ≡ 0)
    × (k.last_status ≡ str "ok")
    × (k.a_password ≡ str "r")
    × (k.b_password ≡ str "q")
unfolding list_eq nat_eq
handle_update_sync_job-keeps_example =
    handle_update_sync_job-keeps env (user (str "anna")) (str "j") job_request world job (λ n. refl)
      is_found refl is_valid
