-- ===== src/Server/Feeds/Handlers.antt =====
-- internal/server/feeds.go: the handlers of feeds and of the audit log.
use tidy_dav.Prelude.{
  ℕ, Str, str, Bool, true, false, Option, none, some, List, [], ◌∷◌, list_eq, nat_eq, ◌==◌,
}
use tidy_dav.Prelude.Result.{Result, ok, err}
use tidy_dav.Store.Types
use tidy_dav.Store.Types.{not_found, failed}
use tidy_dav.Store.Users.{User}
use tidy_dav.Store.Feeds
use tidy_dav.Store.Feeds.{Feed, FeedSource, feed_by_id, feeds_by_user}
use tidy_dav.Server.{
  Env, World, Response, json, error, page_not_found, no_content, server_error, failure, clock, tick,
  draw, require_user, decode_json, audit,
}
use tidy_dav.Server.Notifications.{build_notifications}
use tidy_dav.Server.Feeds.{
  FeedRequest, FeedResponse, Body, feeds, feed, rules_or_default, normalize_ttl,
  preserve_source_secrets, to_store_sources, validate_feed_request, resolve_basic_auth,
  to_feed_response,
}

abbrev pub Reply : Type 0
Reply = Response Body × World

module _ (env : Env) where
  abbrev pub respond : ℕ → Feed → World → Reply
  respond status f w = let (r, w') = to_feed_response env f w in (json status (feed r), w')

  abbrev pub set_feeds : List Feed → World → World
  set_feeds rows w = tick (record w { feeds = rows })

  -- `ownedFeed`: the first argument says whether the feed is the user's.
  abbrev pub if_owner : Bool → Feed → (Feed → World → Reply) → World → Reply
  if_owner true f handler w = handler f w
  if_owner false f handler w = (page_not_found, w)

  abbrev pub owned_result : User → Result Types.Error Feed → (Feed → World → Reply) → World → Reply
  owned_result u (err not_found) handler w = (page_not_found, w)
  owned_result u (err (failed c e)) handler w = (server_error, w)
  owned_result u (ok f) handler w = if_owner (f.user_id == u.id) f handler w

  unfoldable pub owned_feed : User → Str → (Feed → World → Reply) → World → Reply
  unfolding feed_by_id
  owned_feed u id handler w =
      owned_result u (feed_by_id (failure env w) id w.feeds) handler (tick w)

  abbrev pub list_result : List Feed → World → List FeedResponse × World
  list_result [] w = ([], w)
  list_result (f ∷ fs) w =
      let (r, w') = to_feed_response env f w in let (rs, w'') = list_result fs w' in (r ∷ rs, w'')

  abbrev pub listed : Result Types.Error (List Feed) → World → Reply
  listed (err e) w = (server_error, w)
  listed (ok fs) w = let (rs, w') = list_result fs w in (json 200 (feeds rs), w')

  unfoldable pub handle_list_feeds : Option User → World → Reply
  unfolding require_user feeds_by_user to_feed_response
  handle_list_feeds user w =
      require_user user (λ u w. listed (feeds_by_user (failure env w) u.id w.feeds) (tick w)) w

  -- What is left to do after `CreateFeed` and `UpdateFeed`.
  unfoldable pub saved :
      ℕ → Str → User → Result Types.Error (Unit {0}) × Feed × List Feed → World → Reply
  unfolding audit to_feed_response
  saved status action u (err e, f, rows) w = (server_error, set_feeds rows w)
  saved status action u (ok _, f, rows) w =
      respond status f (audit env u action f.id f.name (set_feeds rows w))

  unfoldable pub create_with : User → Feed → Result Str Str → World → Reply
  unfolding saved Feeds.create_feed
  create_with u f (err e) w = (server_error, w)
  create_with u f (ok n) w =
      saved 201 (str "feed.create") u
        (Feeds.create_feed (failure env w) (clock env w) (record f { notifications = n }) w.feeds) w

  unfoldable pub new_feed : User → FeedRequest → Str × Str → Str → Str → Feed
  unfolding to_store_sources rules_or_default normalize_ttl
  new_feed u req (user, hash) id secret = record {
    id = id;
    user_id = u.id;
    name = env.trim_space req.name;
    secret = secret;
    sources = to_store_sources env req.sources;
    rules = rules_or_default req.rules;
    ttl_seconds = normalize_ttl req.ttl_seconds;
    basic_auth_user = user;
    basic_auth_hash = hash;
    notifications = [];
    last_served_at = 0;
    serve_count = 0;
    created_at = 0;
    updated_at = 0;
  }

  unfoldable pub create_with_secret :
      User → FeedRequest → Str × Str → Str → Result Str Str → World → Reply
  unfolding create_with new_feed build_notifications
  create_with_secret u req auth id (err e) w = (server_error, w)
  create_with_secret u req auth id (ok secret) w =
      create_with u (new_feed u req auth id secret) (build_notifications env req.notifications none)
        w

  unfoldable pub create_with_id : User → FeedRequest → Str × Str → Result Str Str → World → Reply
  unfolding create_with_secret
  create_with_id u req auth (err e) w = (server_error, w)
  create_with_id u req auth (ok id) w =
      create_with_secret u req auth id (env.random_token w.drawn) (draw w)

  unfoldable pub create_with_auth : User → FeedRequest → Result Str (Str × Str) → World → Reply
  unfolding create_with_id
  create_with_auth u req (err e) w = (error 400 e, w)
  create_with_auth u req (ok auth) w = create_with_id u req auth (env.random_token w.drawn) (draw w)

  -- The second argument is the message of what is wrong with the request.
  unfoldable pub create_valid : User → Option Str → FeedRequest → World → Reply
  unfolding create_with_auth resolve_basic_auth
  create_valid u (some message) req w = (error 400 message, w)
  create_valid u none req w =
      create_with_auth u req
        (resolve_basic_auth env req.basic_auth_user req.basic_auth_password none) w

  unfoldable pub handle_create_feed : Option User → Option FeedRequest → World → Reply
  unfolding require_user decode_json create_valid validate_feed_request
  handle_create_feed user body w =
      require_user user
        (λ u. decode_json body (λ req. create_valid u (validate_feed_request env req) req)) w

  unfoldable pub handle_get_feed : Option User → Str → World → Reply
  unfolding require_user owned_feed to_feed_response
  handle_get_feed user id w = require_user user (λ u. owned_feed u id (respond 200)) w

  unfoldable pub update_with : User → Feed → Result Str Str → World → Reply
  unfolding saved Feeds.update_feed
  update_with u f (err e) w = (server_error, w)
  update_with u f (ok n) w =
      saved 200 (str "feed.update") u
        (Feeds.update_feed (failure env w) (clock env w) (record f { notifications = n }) w.feeds) w

  unfoldable pub changed_feed : FeedRequest → Str × Str → Feed → Feed
  unfolding to_store_sources preserve_source_secrets rules_or_default normalize_ttl
  changed_feed req (user, hash) f = record f {
    name = env.trim_space req.name;
    sources = preserve_source_secrets (to_store_sources env req.sources) req.sources f.sources;
    rules = rules_or_default req.rules;
    ttl_seconds = normalize_ttl req.ttl_seconds;
    basic_auth_user = user;
    basic_auth_hash = hash;
  }

  unfoldable pub update_with_auth :
      User → FeedRequest → Feed → Result Str (Str × Str) → World → Reply
  unfolding update_with changed_feed build_notifications
  update_with_auth u req f (err e) w = (error 400 e, w)
  update_with_auth u req f (ok auth) w =
      update_with u (changed_feed req auth f) (build_notifications env req.notifications (some f)) w

  unfoldable pub update_valid : User → Feed → Option Str → FeedRequest → World → Reply
  unfolding update_with_auth resolve_basic_auth
  update_valid u f (some message) req w = (error 400 message, w)
  update_valid u f none req w =
      update_with_auth u req f
        (resolve_basic_auth env req.basic_auth_user req.basic_auth_password (some f)) w

  unfoldable pub handle_update_feed : Option User → Str → Option FeedRequest → World → Reply
  unfolding require_user owned_feed decode_json update_valid validate_feed_request
  handle_update_feed user id body w =
      require_user user
        (λ u.
          owned_feed u id
            (λ f. decode_json body (λ req. update_valid u f (validate_feed_request env req) req)))
        w

  unfoldable pub rotate_with : User → Feed → Result Str Str → World → Reply
  unfolding saved Feeds.update_feed
  rotate_with u f (err e) w = (server_error, w)
  rotate_with u f (ok secret) w =
      saved 200 (str "feed.rotate-secret") u
        (Feeds.update_feed (failure env w) (clock env w) (record f { secret = secret }) w.feeds) w

  unfoldable pub handle_rotate_feed_secret : Option User → Str → World → Reply
  unfolding require_user owned_feed rotate_with
  handle_rotate_feed_secret user id w =
      require_user user
        (λ u. owned_feed u id (λ f w. rotate_with u f (env.random_token w.drawn) (draw w))) w

  unfoldable pub deleted : User → Str → Result Types.Error (Unit {0}) × List Feed → World → Reply
  unfolding audit
  deleted u id (err not_found, rows) w = (page_not_found, set_feeds rows w)
  deleted u id (err (failed c e), rows) w = (server_error, set_feeds rows w)
  deleted u id (ok _, rows) w =
      (no_content, audit env u (str "feed.delete") id [] (set_feeds rows w))

  unfoldable pub handle_delete_feed : Option User → Str → World → Reply
  unfolding require_user deleted Feeds.delete_feed
  handle_delete_feed user id w =
      require_user user (λ u w. deleted u id (Feeds.delete_feed (failure env w) id u.id w.feeds) w)
        w
