-- ===== src/Server/Serve.antt =====
-- internal/server/handlers.go: the calendar of a feed at /ics/{secret}, with Basic Auth and the
-- conditional GET.
pub mod Guarded
use tidy_dav.Prelude.{
  ℕ, ◌+◌, Str, str, Bool, true, false, not, ◌&&◌, ◌||◌, Option, none, some, List, [], ◌∷◌, ◌++◌,
  take, is_empty, list_eq, nat_eq, ◌==◌, if◌then◌else◌,
}
use tidy_dav.Prelude.Result.{Result, ok, err}
use tidy_dav.Dav.Href.{hex_encode}
use tidy_dav.Store.Types
use tidy_dav.Store.Types.{not_found, failed}
use tidy_dav.Store.FeedCache.{Rows}
use tidy_dav.Store.Feeds.{Feed, feed_by_secret, mark_feed_served}
use tidy_dav.Ics.Recurrence.{split}
use tidy_dav.Server.{Env, World, failure, clock, tick}

-- The answers of `handleICS`. The last two carry the tag, and the calendar.
pub data Answer : Type 0 where
  page_not_found internal_error unauthorized bad_gateway : Answer
  not_modified : Str → Answer
  calendar : Str → Str → Answer

abbrev pub quote : ℕ
quote = b'"'

-- `strings.TrimPrefix(s, "W/")`
unfoldable pub trim_weak : Str → Str
trim_weak (c ∷ d ∷ s) = if c == b'W' && d == b'/' then s else c ∷ d ∷ s
trim_weak s = s

module _ (env : Env) where
  unfoldable pub entity_tag : Str → Str
  unfolding hex_encode
  entity_tag body = quote ∷ hex_encode (take 16 (env.sha256 body)) ++ quote ∷ []

  unfoldable pub any_matches : Str → List Str → Bool
  unfolding trim_weak
  any_matches etag [] = false
  any_matches etag (c ∷ cs) =
      if trim_weak (env.trim_space c) == etag then true else any_matches etag cs

  unfoldable pub etag_matches : Str → Str → Bool
  unfolding any_matches split trim_weak
  etag_matches header etag =
      let h = env.trim_space header in
      if is_empty h
      then false
      else if h == str "*"
      then true
      else any_matches (trim_weak etag) (split b',' h)

  -- `validBasicAuth`, on the user and the password of the request's header.
  unfoldable pub valid_basic_auth : Option (Str × Str) → Feed → Bool
  valid_basic_auth none f = false
  valid_basic_auth (some (user, pass)) f =
      user == f.basic_auth_user && env.check_password f.basic_auth_hash pass

  unfoldable pub is_allowed : Option (Str × Str) → Feed → Bool
  unfolding valid_basic_auth
  is_allowed auth f = is_empty f.basic_auth_hash || valid_basic_auth auth f

  -- `markServed`: an error is only logged.
  unfoldable pub mark_served : Str → World → World
  unfolding mark_feed_served
  mark_served id w =
      tick (record w { feeds = (mark_feed_served (failure env w) (clock env w) id w.feeds).1 })

  -- The first argument says whether the client has the calendar.
  unfoldable pub answer_body : Bool → Feed → Str → World → Answer × World
  unfolding mark_served entity_tag
  answer_body true f body w = (not_modified (entity_tag body), mark_served f.id w)
  answer_body false f body w = (calendar (entity_tag body) body, mark_served f.id w)

  unfoldable pub rendered : Str → Feed → Result Str Str × Rows → World → Answer × World
  unfolding answer_body etag_matches
  rendered if_none_match f (err e, rows) w = (bad_gateway, record w { cache = rows })
  rendered if_none_match f (ok body, rows) w =
      answer_body (etag_matches if_none_match (entity_tag body)) f body (record w { cache = rows })

  -- The first argument says whether the request may have the calendar.
  unfoldable pub if_allowed : Bool → Str → Feed → World → Answer × World
  unfolding rendered
  if_allowed false if_none_match f w = (unauthorized, w)
  if_allowed true if_none_match f w =
      rendered if_none_match f (env.render w.statements f w.cache) (tick w)

  unfoldable pub looked_up :
      Result Types.Error Feed → Option (Str × Str) → Str → World → Answer × World
  unfolding if_allowed is_allowed
  looked_up (err not_found) auth if_none_match w = (page_not_found, w)
  looked_up (err (failed c e)) auth if_none_match w = (internal_error, w)
  looked_up (ok f) auth if_none_match w = if_allowed (is_allowed auth f) if_none_match f w

  -- `handleICS`, on the secret of the path, the credentials and If-None-Match.
  unfoldable pub handle_ics : Str → Option (Str × Str) → Str → World → Answer × World
  unfolding looked_up feed_by_secret
  handle_ics secret auth if_none_match w =
      looked_up (feed_by_secret (failure env w) secret w.feeds) auth if_none_match (tick w)
