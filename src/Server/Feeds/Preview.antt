-- ===== src/Server/Feeds/Preview.antt =====
-- internal/server/feeds.go: the handlers that only look: previews, the check of a source, a test
-- notification and the audit log.
use tidy_dav.Prelude.{
  ℕ, Str, str, Bool, true, false, not, ◌&&◌, ◌||◌, Option, none, some, List, [], ◌∷◌, ◌++◌,
  is_empty, list_eq, nat_eq, ◌==◌, if◌then◌else◌,
}
use tidy_dav.Prelude.Int.{pos}
use tidy_dav.Prelude.Result.{Result, ok, err}
use tidy_dav.Store.Types
use tidy_dav.Store.Users.{User}
use tidy_dav.Store.FeedCache.{Rows}
use tidy_dav.Store.Audit.{AuditEntry, list_audit_entries}
use tidy_dav.Store.Feeds.{Feed, FeedSource, feed_by_id}
use tidy_dav.Feed.{EventSummary}
use tidy_dav.Notify.{Target, webhook, ntfy, gotify, trim_slashes}
use tidy_dav.Server.{
  Env, World, Response, json, error, no_content, server_error, failure, tick, require_user,
  require_admin, decode_json, is_http_url,
}
use tidy_dav.Server.Feeds.{
  FeedRequest, preview, source_check, rules_or_default, normalize_ttl, preserve_source_secrets,
  to_store_sources, validate_rules,
}
use tidy_dav.Server.Feeds.Handlers.{Reply, owned_feed}

pub record SourceCheckRequest : Type 0 where
  pub id : Str
  pub url : Str
  pub username : Str
  pub password : Str

pub record NotifyTestRequest : Type 0 where
  pub id : Str
  pub channel : Str
  pub webhook_url : Str
  pub ntfy_server : Str
  pub ntfy_topic : Str
  pub gotify_server : Str
  pub gotify_token : Str

abbrev own_feed : User → Result Types.Error Feed → Option Feed
own_feed u (err e) = none
own_feed u (ok f) = if f.user_id == u.id then some f else none

module _ (env : Env) where
  -- The saved feed that a request names, where it is the user's: `none` for an empty id.
  unfoldable pub saved_feed : User → Str → World → Option Feed × World
  unfolding feed_by_id
  saved_feed u [] w = (none, w)
  saved_feed u (c ∷ id) w = (own_feed u (feed_by_id (failure env w) (c ∷ id) w.feeds), tick w)

  abbrev pub previewed : Result Str (List EventSummary × List EventSummary) × Rows → World → Reply
  previewed (err e, rows) w =
      (error 502 (str "preview failed: " ++ e), tick (record w { cache = rows }))
  previewed (ok (original, transformed), rows) w =
      (json 200 (preview original transformed), tick (record w { cache = rows }))

  abbrev pub with_secrets : FeedRequest → List FeedSource → Option Feed → List FeedSource
  with_secrets req sources none = sources
  with_secrets req sources (some f) = preserve_source_secrets sources req.sources f.sources

  unfoldable pub preview_of : User → FeedRequest → Option Feed → Feed
  unfolding to_store_sources rules_or_default normalize_ttl preserve_source_secrets
  preview_of u req existing = record {
    id = str "preview";
    user_id = u.id;
    name = [];
    secret = [];
    sources = with_secrets req (to_store_sources env req.sources) existing;
    rules = rules_or_default req.rules;
    ttl_seconds = normalize_ttl req.ttl_seconds;
    basic_auth_user = [];
    basic_auth_hash = [];
    notifications = [];
    last_served_at = 0;
    serve_count = 0;
    created_at = 0;
    updated_at = 0;
  }

  unfoldable pub preview_valid : User → FeedRequest → Option Str → World → Reply
  unfolding saved_feed preview_of
  preview_valid u req (some message) w = (error 400 message, w)
  preview_valid u req none w =
      let (existing, w') = saved_feed u req.id w in
      previewed (env.preview w'.statements (preview_of u req existing) w'.cache) w'

  unfoldable pub handle_preview_feed : Option User → Option FeedRequest → World → Reply
  unfolding require_user decode_json preview_valid validate_rules
  handle_preview_feed user body w =
      require_user user
        (λ u. decode_json body (λ req. preview_valid u req (validate_rules env req.rules))) w

  unfoldable pub handle_preview_saved_feed : Option User → Str → World → Reply
  unfolding require_user owned_feed
  handle_preview_saved_feed user id w =
      require_user user
        (λ u. owned_feed env u id (λ f w. previewed (env.preview w.statements f w.cache) w)) w

  -- The first password that is stored for a URL.
  unfoldable pub first_password : Str → List FeedSource → Str
  first_password url [] = []
  first_password url (s ∷ ss) =
      let rest = first_password url ss in
      if s.url == url && not (is_empty s.password) then s.password else rest

  abbrev password_of : Str → Option Feed → Str
  password_of url none = []
  password_of url (some f) = first_password url f.sources

  abbrev pub stored_password : Str → Option Feed × World → Str × World
  stored_password url (existing, w) = (password_of url existing, w)

  abbrev pub checked : Result Str ℕ × Rows → World → Reply
  checked (err e, rows) w = (json 200 (source_check false 0 e), tick (record w { cache = rows }))
  checked (ok n, rows) w = (json 200 (source_check true n []), tick (record w { cache = rows }))

  -- The password of the request, or else the stored one.
  unfoldable pub check_password_of : User → SourceCheckRequest → World → Str × World
  unfolding saved_feed first_password
  check_password_of u req w =
      if is_empty req.password
      then stored_password (env.trim_space req.url) (saved_feed u req.id w)
      else (req.password, w)

  abbrev pub check_valid : User → SourceCheckRequest → Bool → World → Reply
  check_valid u req false w = (json 200 (source_check false 0 (str "needs a valid http(s) URL")), w)
  check_valid u req true w =
      let (password, w') = check_password_of u req w in
      checked
        (env.check_source w'.statements (env.trim_space req.url) req.username password w'.cache) w'

  unfoldable pub handle_check_source : Option User → Option SourceCheckRequest → World → Reply
  unfolding require_user decode_json is_http_url check_password_of
  handle_check_source user body w =
      require_user user
        (λ u.
          decode_json body (λ req. check_valid u req (is_http_url env (env.trim_space req.url))))
        w

  -- The target of a test, with the token of a saved feed where the request leaves it out.
  abbrev token_of : Option Feed → Str
  token_of none = []
  token_of (some f) =
      let (n, read) = env.unmarshal_notifications f.notifications in
      if read then n.gotify_token else []

  abbrev stored_token : Option Feed × World → Str × World
  stored_token (existing, w) = (token_of existing, w)

  unfoldable pub test_token : User → NotifyTestRequest → World → Str × World
  unfolding saved_feed
  test_token u req w =
      if is_empty req.gotify_token
      then stored_token (saved_feed u req.id w)
      else (req.gotify_token, w)

  abbrev gotify_target : Str → Str → Result Str Target
  gotify_target server token =
      if is_empty server || is_empty token
      then err (str "gotify server and token are required")
      else ok (gotify (trim_slashes server ++ str "/message?token=" ++ token))

  abbrev gotify_of : Str → Str × World → Result Str Target × World
  gotify_of server (token, w) = (gotify_target server token, w)

  -- The target of `handleNotifyTest`, or the message that refuses the request.
  unfoldable pub test_target : User → NotifyTestRequest → World → Result Str Target × World
  unfolding test_token trim_slashes
  test_target u req w =
      if req.channel == str "webhook"
      then (
        if is_empty (env.trim_space req.webhook_url)
            then err (str "webhook URL is required")
            else ok (webhook (env.trim_space req.webhook_url)),
        w,
      )
      else if req.channel == str "ntfy"
      then (
        if is_empty req.ntfy_server || is_empty req.ntfy_topic
            then err (str "ntfy server and topic are required")
            else ok (ntfy (trim_slashes req.ntfy_server ++ str "/" ++ req.ntfy_topic)),
        w,
      )
      else if req.channel == str "gotify"
      then gotify_of req.gotify_server (test_token u req w)
      else (err (str "channel must be webhook, ntfy or gotify"), w)

  abbrev posted_test : Option Str → World → Reply
  posted_test none w = (no_content, w)
  posted_test (some e) w = (error 502 (str "test failed: " ++ e), w)

  abbrev tested : (Target → Option Str) → Result Str Target × World → Reply
  tested post (err message, w) = (error 400 message, w)
  tested post (ok target, w) = posted_test (post target) w

  -- `handleNotifyTest`, with what the target answers.
  unfoldable pub handle_notify_test :
      (Target → Option Str) → Option User → Option NotifyTestRequest → World → Reply
  unfolding require_user decode_json test_target
  handle_notify_test post user body w =
      require_user user (λ u. decode_json body (λ req w. tested post (test_target u req w))) w

  abbrev pub listed_audit :
      Result Types.Error (List AuditEntry) → World → Response (List AuditEntry) × World
  listed_audit (err e) w = (server_error, w)
  listed_audit (ok es) w = (json 200 es, w)

  unfoldable pub handle_list_audit : Option User → World → Response (List AuditEntry) × World
  unfolding require_admin list_audit_entries
  handle_list_audit user w =
      require_admin user
        (λ u w. listed_audit (list_audit_entries (failure env w) (pos 200) w.audit) (tick w)) w
