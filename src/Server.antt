-- ===== src/Server.antt =====
-- internal/server: the handlers of the JSON API and of the calendars, on the database's tables. The
-- user of a request, as `Auth.user_from_request` finds it, the decoder of a body, Go's URLs, bcrypt
-- and random numbers are parameters; lines of the log are left out.
pub mod Notifications
pub mod Feeds
pub mod SyncJobs
pub mod Serve
mod Sample
mod Tests
use tidy_dav.Prelude.{
  ℕ, ◌+◌, Str, str, Bool, true, false, not, ◌&&◌, ◌||◌, Option, none, some, List, [], ◌∷◌, is_empty,
  list_eq, nat_eq, ◌==◌, if◌then◌else◌,
}
use tidy_dav.Prelude.Clock.{Time}
use tidy_dav.Prelude.Result.{Result, ok, err}
use tidy_dav.Store.Types
use tidy_dav.Store.Types.{not_found, failed}
use tidy_dav.Store.Users.{User}
use tidy_dav.Store.FeedCache.{Rows}
use tidy_dav.Store.Feeds.{Feed}
use tidy_dav.Store.SyncJobs.{SyncJob}
use tidy_dav.Store.Audit.{AuditEntry, record_entry}
use tidy_dav.Dav.Window
use tidy_dav.Notify.{FeedNotifications}
use tidy_dav.Feed.{EventSummary}
use tidy_dav.Pipeline
use tidy_dav.Pipeline.Rules.{Parts}
use tidy_dav.Pipeline.Config.{RuleConfig, Compiler}
use tidy_dav.Pipeline.Config

-- What a merge preview is asked for: the kind, the direction, the policy, the window, and both
-- endpoints.
pub record Preview : Type 0 where
  pub kind : Str
  pub direction : Str
  pub conflict : Str
  pub from : Time
  pub to : Time
  pub a_url : Str
  pub a_username : Str
  pub a_password : Str
  pub b_url : Str
  pub b_username : Str
  pub b_password : Str

-- `dav.PreviewEntry`, and the entries of both sides and of the merge.
pub record PreviewEntry : Type 0 where
  pub uid : Str
  pub title : Str
  pub when : Str

pub record MergePreview : Type 0 where
  pub a : List PreviewEntry
  pub b : List PreviewEntry
  pub merged : List PreviewEntry

-- What a handler answers: a value as JSON, an error with its text, or no body.
pub data Response (A : Type 0) : Type 0 where
  json : ℕ → A → Response A
  error : ℕ → Str → Response A
  -- `http.NotFound`
  page_not_found : Response A
  no_content : Response A

pub record World : Type 0 where
  pub feeds : List Feed
  pub jobs : List SyncJob
  pub audit : List AuditEntry
  pub cache : Rows
  -- The numbers of statements and of random values so far.
  pub statements : ℕ
  pub drawn : ℕ

pub record Env : Type 1 where
  -- The calendars of the pipeline.
  pub E : Type 0
  pub C : Type 0
  pub K : Type 0
  pub L : Type 0
  pub pipeline : Pipeline.Env E
  pub parts : Parts E K L
  pub regexps : Compiler
  pub print_error : Config.Error → Str
  pub decode_rules : Str → Option (List RuleConfig)
  -- What `json.Unmarshal` leaves, and whether it succeeds.
  pub unmarshal_notifications : Str → FeedNotifications × Bool
  pub marshal_notifications : FeedNotifications → Result Str Str
  -- The error of a statement, by its number, and the time at which it runs.
  pub db : ℕ → Option Str
  pub now : ℕ → Time
  pub random_token : ℕ → Result Str Str
  pub trim_space : Str → Str
  -- The scheme and the host.
  pub parse_url : Str → Option (Str × Str)
  pub hash_password : Str → Result Str Str
  pub check_password : Str → Str → Bool
  -- `Format(time.RFC3339)`
  pub format_time : Time → Str
  pub base_url : Str
  -- `Preview`, `CheckSource` and `Render` of the feed service, by the number of the statement: the
  -- fetches change the cache.
  pub preview : ℕ → Feed → Rows → Result Str (List EventSummary × List EventSummary) × Rows
  pub check_source : ℕ → Str → Str → Str → Rows → Result Str ℕ × Rows
  pub render : ℕ → Feed → Rows → Result Str Str × Rows
  pub sha256 : Str → Str
  -- `dav.ParseWindow`, and a run by hand of `davsync.Runner`, whose answer says whether the job was
  -- free, with the table that it leaves.
  pub window : Window.Env
  pub run_one : ℕ → SyncJob → List SyncJob → Bool × List SyncJob
  -- `buildPreviewCollections` and `dav.PreviewMerge`: the message of a client that is refused, or
  -- the result of the merge.
  pub preview_merge : Preview → Result Str (Result Str MergePreview)

abbrev pub failure : Env → World → Option Str
failure env w = env.db w.statements

abbrev pub clock : Env → World → Time
clock env w = env.now w.statements

-- One statement has run.
abbrev pub tick : World → World
tick w = record w { statements = w.statements + 1 }

abbrev pub draw : World → World
draw w = record w { drawn = w.drawn + 1 }

-- `serverError`
abbrev pub server_error : {A : Type 0} → Response A
server_error = error 500 (str "internal server error")

-- `requireUser`: the handler goes on with the user.
unfoldable pub require_user :
    {A : Type 0} → Option User → (User → World → Response A × World) → World → Response A × World
require_user none handler w = (error 401 (str "authentication required"), w)
require_user (some u) handler w = handler u w

abbrev if_admin :
    {A : Type 0} → (User → World → Response A × World) → Bool → User → World → Response A × World
if_admin handler false u w = (error 403 (str "admin access required"), w)
if_admin handler true u w = handler u w

-- `requireAdmin`
unfoldable pub require_admin :
    {A : Type 0} → Option User → (User → World → Response A × World) → World → Response A × World
unfolding require_user
require_admin user handler w = require_user user (λ u. if_admin handler u.is_admin u) w

-- `decodeJSON`: the handler goes on with the body.
unfoldable pub decode_json :
    {A B : Type 0} → Option B → (B → World → Response A × World) → World → Response A × World
decode_json none handler w = (error 400 (str "invalid request body"), w)
decode_json (some b) handler w = handler b w

-- `s.app.Audit.Record`
unfoldable pub audit : Env → User → Str → Str → Str → World → World
unfolding record_entry
audit env u action target detail w =
    tick (record w {
      audit = record_entry (failure env w) (clock env w) u action target detail w.audit;
    })

abbrev http_scheme : Option (Str × Str) → Bool
http_scheme none = false
http_scheme (some (scheme, host)) =
    (scheme == str "http" || scheme == str "https") && not (is_empty host)

-- Whether a text is an http or https URL with a host.
unfoldable pub is_http_url : Env → Str → Bool
is_http_url env raw = http_scheme (env.parse_url raw)
