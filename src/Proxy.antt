-- ===== src/Proxy.antt =====
-- internal/proxy/proxy.go: fetching an upstream feed through the cache. The HTTP client, the hash
-- and `outbound.RedactURL` are parameters, and an error is a value of a type in place of its text.
pub mod Served
mod Anonymous
mod Cached
mod Tests
use tidy_dav.Prelude.{
  ℕ, ◌≡◌, refl, ◌*◌, ◌^◌, Str, str, Bool, true, false, ◌&&◌, Option, none, some, List, [], ◌∷◌,
  ◌++◌, take, eqb, is_empty, if◌then◌else◌,
}
use tidy_dav.Prelude.Int.{ℤ, pos, ltb_ℤ}
use tidy_dav.Prelude.Clock.{Time, elapsed}
use tidy_dav.Prelude.Result.{Result, ok, err}
use tidy_dav.Dav.Href.{hex_encode}
use tidy_dav.Store.Types
use tidy_dav.Store.FeedCache.{CachedFeed}

-- `maxFeedSize`
abbrev pub max_feed_size : ℕ
max_feed_size = 25 * 2 ^ 20

-- A GET with Basic Auth, and with `If-None-Match` where that text is not empty.
pub record Request : Type 0 where
  pub url : Str
  pub auth : Option (Str × Str)
  pub if_none_match : Str

pub record Response : Type 0 where
  pub status : ℕ
  pub etag : Str
  pub body : Result Str Str

pub data FetchError : Type 0 where
  transport : Str → FetchError
  unexpected_304 : FetchError
  unreadable : Str → FetchError
  unexpected_status : ℕ → FetchError

pub data Error : Type 0 where
  read_cache : Types.Error → Error
  fetch_failed : Str → FetchError → Error
  empty_response : Str → Error

pub data Source : Type 0 where
  source_none source_upstream source_cache_fresh source_cache_stale : Source

pub record Env : Type 0 where
  pub sha256 : Str → Str
  pub redact_url : Str → Str
  -- `http.NewRequestWithContext` and `client.Do`
  pub exchange : Request → Result Str Response

-- The interface `Cache`, over a state of the store.
pub record Cache {ℓ} (St : Type ℓ) : Type ℓ where
  pub get : Str → St → Result Types.Error CachedFeed
  pub put : CachedFeed → St → Result Types.Error (Unit {0}) × St

-- `cacheKey`
unfoldable pub cache_key : Env → Str → Str → Str → Str
unfolding hex_encode
cache_key env url username password =
    if is_empty username && is_empty password
    then url
    else url ++ 0 ∷ hex_encode (take 8 (env.sha256 (username ++ 0 ∷ password)))

-- What `req.SetBasicAuth` is called with.
abbrev pub auth : Str → Str → Option (Str × Str)
auth [] password = none
auth (c ∷ username) password = some (c ∷ username, password)

abbrev pub known_etag : Option CachedFeed → Str
known_etag none = []
known_etag (some c) = c.etag

unfoldable pub request : Str → Option CachedFeed → Str → Str → Request
request url cached username password = record {
  url = url;
  auth = auth username password;
  if_none_match = known_etag cached;
}

unfoldable pub read_body : Str → Result Str Str → Result FetchError (Option Str × Str)
read_body etag (ok body) = ok (some (take max_feed_size body), etag)
read_body etag (err e) = err (unreadable e)

unfoldable pub not_modified : Option CachedFeed → Result FetchError (Option Str × Str)
not_modified none = err unexpected_304
not_modified (some c) = ok (none, c.etag)

unfoldable pub answer :
    Option CachedFeed → Result Str Response → Result FetchError (Option Str × Str)
unfolding not_modified read_body
answer cached (err e) = err (transport e)
answer cached (ok r) =
    if eqb r.status 304
    then not_modified cached
    else if eqb r.status 200
    then read_body r.etag r.body
    else err (unexpected_status r.status)

-- `fetchUpstream`: no body stands for the nil body of a 304.
unfoldable pub fetch_upstream :
    Env → Str → Option CachedFeed → Str → Str → Result FetchError (Option Str × Str)
unfolding answer request
fetch_upstream env url cached username password =
    answer cached (env.exchange (request url cached username password))

module _ {ℓ} {St : Type ℓ} (env : Env) (cache : Cache St) (url key : Str) (put_at : Time) where
  -- A write of the cache that fails is only logged.
  unfoldable pub store_copy : Str → Str → St → Result Error (Str × Source) × St
  store_copy body etag s = (
    ok (body, source_upstream),
    (cache.put (record { key = key; url = url; body = body; etag = etag; fetched_at = put_at })
        s).1,
  )

  unfoldable pub serve :
      Option CachedFeed
      → Result FetchError (Option Str × Str)
      → St
      → Result Error (Str × Source) × St
  unfolding store_copy
  serve (some c) (err e) s = (ok (c.body, source_cache_stale), s)
  serve none (err e) s = (err (fetch_failed (env.redact_url url) e), s)
  serve (some c) (ok (none, etag)) s = store_copy c.body etag s
  serve none (ok (none, etag)) s = (err (empty_response (env.redact_url url)), s)
  serve cached (ok (some body, etag)) s = store_copy body etag s

-- The copy is younger than the time that it may be served for.
unfoldable pub is_fresh : ℤ → Time → CachedFeed → Bool
is_fresh ttl now c = ltb_ℤ (pos 0) ttl && ltb_ℤ (elapsed now c.fetched_at) ttl

module _ {ℓ} {St : Type ℓ} (env : Env) (cache : Cache St) (url : Str) (ttl : ℤ)
    (username password : Str) (now put_at : Time) where
  unfoldable pub refetch : Option CachedFeed → St → Result Error (Str × Source) × St
  unfolding fetch_upstream serve
  refetch cached s =
      serve env cache url (cache_key env url username password) put_at cached
        (fetch_upstream env url cached username password) s

  unfoldable pub from_cache : Result Types.Error CachedFeed → St → Result Error (Str × Source) × St
  unfolding refetch is_fresh
  from_cache (err Types.not_found) s = refetch none s
  from_cache (err e) s = (err (read_cache e), s)
  from_cache (ok c) s =
      if is_fresh ttl now c then (ok (c.body, source_cache_fresh), s) else refetch (some c) s

  -- `FetchAuth`. `now` and `put_at` are the two readings of the clock.
  unfoldable pub fetch_auth : St → Result Error (Str × Source) × St
  unfolding from_cache cache_key
  fetch_auth s = from_cache (cache.get (cache_key env url username password) s) s
