-- ===== src/Server/Feeds.antt =====
-- internal/server/feeds.go: the parts of the handlers of feeds that decide: what a request may ask
-- for, whose feed it is, which secrets are kept, and what a response shows.
pub mod Handlers
pub mod Preview
pub mod Owned
pub mod Isolation
pub mod Secrets
use tidy_dav.Prelude.{
  ℕ, ◌+◌, Str, str, Bool, true, false, not, ◌&&◌, ◌||◌, Option, none, some, List, [], ◌∷◌, ◌++◌,
  is_empty, list_eq, nat_eq, ◌==◌, if◌then◌else◌,
}
use tidy_dav.Prelude.Int.{ℤ, pos, negsuc}
use tidy_dav.Prelude.Clock.{Time, is_zero}
use tidy_dav.Prelude.Result.{Result, ok, err, ◌>>=◌}
use tidy_dav.Store.Types
use tidy_dav.Store.Types.{not_found, failed}
use tidy_dav.Store.Users.{User}
use tidy_dav.Store.Feeds.{Feed, FeedSource, feed_by_id, text_or}
use tidy_dav.Store.FeedCache.{cached_feed_fetched_at}
use tidy_dav.Notify.{FeedNotifications}
use tidy_dav.Pipeline.Config.{RuleConfig}
use tidy_dav.Pipeline.Config
use tidy_dav.Pipeline.Chain.{build_pipeline}
use tidy_dav.Feed.{EventSummary}
use tidy_dav.Server.{
  Env, World, Response, json, error, page_not_found, no_content, server_error, failure, tick,
  is_http_url,
}
use tidy_dav.Server.Notifications.{NotificationsResponse, to_notifications_response}

-- `feedSourceDTO` of a request, and of a response.
pub record SourceRequest : Type 0 where
  pub url : Str
  pub username : Str
  pub password : Str
  pub clear_password : Bool

pub record SourceResponse : Type 0 where
  pub url : Str
  pub username : Str
  pub has_password : Bool
  pub last_fetched_at : Str

pub record FeedRequest : Type 0 where
  pub id : Str
  pub name : Str
  pub sources : List SourceRequest
  pub rules : Str
  pub ttl_seconds : ℤ
  pub basic_auth_user : Str
  pub basic_auth_password : Str
  pub notifications : Option FeedNotifications

pub record FeedResponse : Type 0 where
  pub id : Str
  pub name : Str
  pub secret : Str
  pub ics_url : Str
  pub sources : List SourceResponse
  pub rules : Str
  pub ttl_seconds : ℤ
  pub basic_auth_user : Str
  pub basic_auth_enabled : Bool
  pub notifications : NotificationsResponse
  pub last_served_at : Str
  pub serve_count : ℕ
  pub created_at : Str
  pub updated_at : Str

-- The bodies of the responses.
pub data Body : Type 0 where
  feeds : List FeedResponse → Body
  feed : FeedResponse → Body
  preview : List EventSummary → List EventSummary → Body
  source_check : Bool → ℕ → Str → Body

unfoldable pub rules_or_default : Str → Str
rules_or_default raw = text_or (str "[]") raw

unfoldable pub normalize_ttl : ℤ → ℤ
normalize_ttl (pos n) = pos n
normalize_ttl (negsuc n) = pos 0

-- `byURL` of the stored sources: the last password of a URL.
unfoldable pub by_url : Str → List FeedSource → Option Str
by_url url [] = none
by_url url (s ∷ ss) = elim (by_url url ss) [
  | some pw ↦ some pw
  | none ↦ if not (is_empty s.password) && s.url == url then some s.password else none
]

-- The request at an index, if there is one, asks to clear the password.
abbrev clears : List SourceRequest → Bool
clears [] = false
clears (d ∷ ds) = d.clear_password

abbrev after {ℓ} : {A : Type ℓ} → List A → List A
after [] = []
after (a ∷ rest) = rest

abbrev slot_password : List FeedSource → Str
slot_password [] = []
slot_password (s ∷ ss) = s.password

abbrev stored_or : Option Str → Str → Str
stored_or none slot = slot
stored_or (some pw) slot = pw

-- The password of a source: the first argument says whether it is to be cleared.
unfoldable pub kept_password : Bool → Str → Option Str → Str → Str
kept_password true password stored slot = password
kept_password false [] stored slot = stored_or stored slot
kept_password false (c ∷ password) stored slot = c ∷ password

-- The loop of `preserveSourceSecrets`, with all stored sources, and those from its index on.
unfoldable pub preserve_from :
    List FeedSource → List FeedSource → List SourceRequest → List FeedSource → List FeedSource
unfolding by_url kept_password
preserve_from all [] dtos slots = []
preserve_from all (s ∷ ss) dtos slots =
    record s {
      password = kept_password (clears dtos) s.password (by_url s.url all) (slot_password slots);
    }
    ∷ preserve_from all ss (after dtos) (after slots)

unfoldable pub preserve_source_secrets :
    List FeedSource → List SourceRequest → List FeedSource → List FeedSource
unfolding preserve_from
preserve_source_secrets sources dtos existing = preserve_from existing sources dtos existing

module _ (env : Env) where
  unfoldable pub to_store_sources : List SourceRequest → List FeedSource
  to_store_sources [] = []
  to_store_sources (d ∷ ds) =
      record { url = env.trim_space d.url; username = d.username; password = d.password }
      ∷ to_store_sources ds

  abbrev built : {A : Type 0} → Result Config.Error A → Option Str
  built (ok rules) = none
  built (err e) = some (env.print_error e)

  abbrev decoded : Option (List RuleConfig) → Option Str
  decoded none = some (str "rules must be a JSON array")
  decoded (some configs) =
      built (build_pipeline {C = env.C} env.pipeline env.parts env.regexps configs)

  -- The message of what is wrong with the rules, if anything is.
  unfoldable pub validate_rules : Str → Option Str
  validate_rules [] = none
  validate_rules (c ∷ raw) = decoded (env.decode_rules (c ∷ raw))

  unfoldable pub are_urls : List SourceRequest → Bool
  unfolding is_http_url
  are_urls [] = true
  are_urls (d ∷ ds) = is_http_url env d.url && are_urls ds

  unfoldable pub validate_feed_request : FeedRequest → Option Str
  unfolding validate_rules are_urls
  validate_feed_request req =
      if is_empty (env.trim_space req.name)
      then some (str "name is required")
      else if not (are_urls req.sources)
      then some (str "each source needs a valid http(s) URL")
      else validate_rules req.rules

  abbrev stored_hash : Option Feed → Str
  stored_hash none = []
  stored_hash (some f) = f.basic_auth_hash

  abbrev with_hash : Str → Result Str Str → Result Str (Str × Str)
  with_hash user (err e) = err e
  with_hash user (ok hash) = ok (user, hash)

  -- The user is trimmed; the second argument is the password, the third the stored hash.
  unfoldable pub resolve_trimmed : Str → Str → Str → Result Str (Str × Str)
  resolve_trimmed [] [] stored = ok ([], [])
  resolve_trimmed [] (c ∷ password) stored =
      err (str "basic auth needs a username as well as a password")
  resolve_trimmed (c ∷ user) (d ∷ password) stored =
      with_hash (c ∷ user) (env.hash_password (d ∷ password))
  resolve_trimmed (c ∷ user) [] [] = err (str "basic auth password is required")
  resolve_trimmed (c ∷ user) [] (d ∷ hash) = ok (c ∷ user, d ∷ hash)

  unfoldable pub resolve_basic_auth : Str → Str → Option Feed → Result Str (Str × Str)
  unfolding resolve_trimmed
  resolve_basic_auth user password existing =
      resolve_trimmed (env.trim_space user) password (stored_hash existing)

  abbrev time_text : Time → Str
  time_text t = if is_zero t then [] else env.format_time t

  abbrev fetched_text : Result Types.Error Time → Str
  fetched_text (err e) = []
  fetched_text (ok t) = time_text t

  unfoldable pub source_responses : List FeedSource → World → List SourceResponse × World
  source_responses [] w = ([], w)
  source_responses (s ∷ ss) w =
      let fetched = cached_feed_fetched_at (failure env w) s.url w.cache in
      let (rest, w') = source_responses ss (tick w) in
      (
        record {
          url = s.url;
          username = s.username;
          has_password = not (is_empty s.password);
          last_fetched_at = fetched_text fetched;
        }
            ∷ rest,
        w',
      )

  unfoldable pub to_feed_response : Feed → World → FeedResponse × World
  unfolding source_responses rules_or_default to_notifications_response
  to_feed_response f w =
      let (sources, w') = source_responses f.sources w in
      (
        record {
          id = f.id;
          name = f.name;
          secret = f.secret;
          ics_url = env.base_url ++ str "/ics/" ++ f.secret;
          sources = sources;
          rules = rules_or_default f.rules;
          ttl_seconds = f.ttl_seconds;
          basic_auth_user = f.basic_auth_user;
          basic_auth_enabled = not (is_empty f.basic_auth_hash);
          notifications = to_notifications_response env f.notifications;
          last_served_at = time_text f.last_served_at;
          serve_count = f.serve_count;
          created_at = env.format_time f.created_at;
          updated_at = env.format_time f.updated_at;
        },
        w',
      )
