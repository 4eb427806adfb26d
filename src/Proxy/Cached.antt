-- ===== src/Proxy/Cached.antt =====
-- internal/proxy/proxy.go: what a fetch leaves in the cache, and what a cached copy is good for.
use tidy_dav.Prelude.{
  ◌≡◌, take, eqb, arith, refl, ◌⊎◌, inl, inr, Str, true, false, ◌&&◌, subst, Option, none, some,
  list_eq, nat_eq, Bool-cases, ==_self,
}
use tidy_dav.Prelude.Int.{ℤ, pos, ltb_ℤ}
use tidy_dav.Prelude.Clock.{Time, is_zero, at_second, elapsed}
use tidy_dav.Prelude.Dict
use tidy_dav.Prelude.Result.{Result, ok, err}
use tidy_dav.Store.Types
use tidy_dav.Store.FeedCache.{CachedFeed, Rows, row_or, get_cached_feed, put_row, put_cached_feed}
use tidy_dav.Proxy.{
  max_feed_size, auth, request, read_body, not_modified, answer, Env, Request, Response, Source,
  source_upstream, source_cache_fresh, Error, FetchError, cache_key, fetch_upstream, store_copy,
  serve, is_fresh, refetch, from_cache, fetch_auth,
}
use tidy_dav.Proxy.Served.{feed_cache, key_or-url}

module _ (env : Env) (url username password : Str) (read : Option Str) (put_at now : Time) where
  abbrev own_key : Str
  own_key = cache_key env url username password

  abbrev copy : Str → Str → CachedFeed
  copy body etag = record {
    key = own_key;
    url = url;
    body = body;
    etag = etag;
    fetched_at = at_second put_at;
  }

  -- What came from the server is in the cache, as of the time of the fetch.
  abbrev IsStored : Result Error (Str × Source) × Rows → Type 0
  IsStored (ok (body, source_upstream), rows) =
      (etag : Str) × (Dict.lookup own_key rows ≡ some (copy body etag))
  IsStored _ = Unit

  store_copy-IsStored :
      (body etag : Str) (rows : Rows)
      → is_zero put_at ≡ false
      → IsStored (store_copy env (feed_cache read none now) url own_key put_at body etag rows)
  unfolding store_copy feed_cache put_cached_feed put_row
  store_copy-IsStored body etag rows set =
      (etag, rw (key_or-url env url username password, set, Dict.lookup-insert, ==_self) refl)

  serve-IsStored :
      (cached : Option CachedFeed) (a : Result FetchError (Option Str × Str)) (rows : Rows)
      → is_zero put_at ≡ false
      → IsStored (serve env (feed_cache read none now) url own_key put_at cached a rows)
  unfolding serve
  serve-IsStored (some c) (err e) rows set = tt
  serve-IsStored none (err e) rows set = tt
  serve-IsStored (some c) (ok (none, etag)) rows set = store_copy-IsStored c.body etag rows set
  serve-IsStored none (ok (none, etag)) rows set = tt
  serve-IsStored (some c) (ok (some body, etag)) rows set = store_copy-IsStored body etag rows set
  serve-IsStored none (ok (some body, etag)) rows set = store_copy-IsStored body etag rows set

  module _ (ttl : ℤ) (at : Time) where
    refetch-IsStored :
        (cached : Option CachedFeed) (rows : Rows)
        → is_zero put_at ≡ false
        → IsStored
            (refetch env (feed_cache read none now) url ttl username password at put_at cached rows)
    unfolding refetch
    refetch-IsStored cached rows set =
        serve-IsStored cached (fetch_upstream env url cached username password) rows set

    from_cache-IsStored :
        (found : Result Types.Error CachedFeed) (rows : Rows)
        → is_zero put_at ≡ false
        → IsStored (
            from_cache env
              (feed_cache read none now)
              url
              ttl
              username
              password
              at
              put_at
              found
              rows)
    unfolding from_cache
    from_cache-IsStored (err Types.not_found) rows set = refetch-IsStored none rows set
    from_cache-IsStored (err (Types.failed c e)) rows set = tt
    from_cache-IsStored (ok c) rows set = elim (Bool-cases (is_fresh ttl at c)) [
      | inl t ↦ rw t tt
      | inr f ↦ rw f (refetch-IsStored (some c) rows set)
    ]

    fetch_auth-IsStored :
        (rows : Rows)
        → is_zero put_at ≡ false
        → IsStored
            (fetch_auth env (feed_cache read none now) url ttl username password at put_at rows)
    unfolding fetch_auth
    fetch_auth-IsStored rows set = from_cache-IsStored _ rows set

  -- A cached copy that is fresh is what a fetch returns, and the cache stays as it is.
  fetch_auth-hit :
      (exchange : Request → Result Str Response) (write : Option Str) (ttl : ℤ)
      (later put' now' : Time) (c : CachedFeed) (rows : Rows)
      → Dict.lookup own_key rows ≡ some c
      → is_fresh ttl later c ≡ true
      → fetch_auth
          (record env { exchange = exchange })
          (feed_cache none write now')
          url
          ttl
          username
          password
          later
          put'
          rows
        ≡ (ok (c.body, source_cache_fresh), rows)
  unfolding fetch_auth feed_cache get_cached_feed row_or from_cache cache_key
  fetch_auth-hit exchange write ttl later put' now' c rows found fresh = rw (found, fresh) refl

  -- A body that a fetch brought from the server, at a time that is set and with a cache that could
  -- be written, is what the next fetch with the same credentials returns while it is fresh,
  -- whatever the server would answer and without a write.
  pub fetch_auth-again :
      (exchange : Request → Result Str Response) (write : Option Str) (ttl ttl' : ℤ)
      (at later put' now' : Time) (body : Str) (rows rows' : Rows)
      → is_zero put_at ≡ false
      → fetch_auth env (feed_cache read none now) url ttl username password at put_at rows
        ≡ (ok (body, source_upstream), rows')
      → (ltb_ℤ (pos 0) ttl' && ltb_ℤ (elapsed later (at_second put_at)) ttl') ≡ true
      → fetch_auth
          (record env { exchange = exchange })
          (feed_cache none write now')
          url
          ttl'
          username
          password
          later
          put'
          rows'
        ≡ (ok (body, source_cache_fresh), rows')
  unfolding is_fresh
  fetch_auth-again exchange write ttl ttl' at later put' now' body rows rows' set first fresh =
      let (etag, found) = subst IsStored first (fetch_auth-IsStored ttl at rows set) in
      fetch_auth-hit exchange write ttl' later put' now' (copy body etag) rows' found fresh

  -- The server has answered a request for the URL with the credentials with status 200 and this
  -- body, of which no more than the limit is read.
  abbrev pub IsSent : Str → Type 0
  IsSent body =
      (q : Request) × (a : Response) × (b : Str) × (q.url ≡ url)
      × (q.auth ≡ auth username password)
      × (env.exchange q ≡ ok a)
      × (a.status ≡ 200)
      × (a.body ≡ ok b)
      × (body ≡ take max_feed_size b)

  -- What `fetchUpstream` answers: a body that the server has sent, or none.
  abbrev IsSentAnswer : Result FetchError (Option Str × Str) → Type 0
  IsSentAnswer (ok (some body, etag)) = IsSent body
  IsSentAnswer _ = Unit

  read_body-IsSent :
      (etag : Str) (body : Result Str Str)
      → ((b : Str) → body ≡ ok b → IsSent (take max_feed_size b))
      → IsSentAnswer (read_body etag body)
  unfolding read_body
  read_body-IsSent etag (ok b) sent = sent b refl
  read_body-IsSent etag (err e) sent = tt

  not_modified-IsSent : (cached : Option CachedFeed) → IsSentAnswer (not_modified cached)
  unfolding not_modified
  not_modified-IsSent none = tt
  not_modified-IsSent (some c) = tt

  answer-IsSent :
      (cached : Option CachedFeed) (r : Result Str Response)
      → env.exchange (request url cached username password) ≡ r
      → IsSentAnswer (answer cached r)
  unfolding answer request
  answer-IsSent cached (err e) sent = tt
  answer-IsSent cached (ok a) sent = elim (Bool-cases (eqb a.status 304)) [
    | inl t ↦ rw t (not_modified-IsSent cached)
    | inr f ↦ elim (Bool-cases (eqb a.status 200)) [
      | inl t ↦
          rw (f, t)
            (read_body-IsSent a.etag a.body (λ b read. (
              request url cached username password,
              a,
              b,
              refl,
              refl,
              sent,
              ground arith,
              read,
              refl,
            )))
      | inr g ↦ rw (f, g) tt
    ]
  ]

  fetch_upstream-IsSent :
      (cached : Option CachedFeed) → IsSentAnswer (fetch_upstream env url cached username password)
  unfolding fetch_upstream
  fetch_upstream-IsSent cached = answer-IsSent cached _ refl

  module _ (write : Option Str) (c : CachedFeed) where
    -- The run returns a body, which is the copy's unless the server sent it.
    abbrev IsCovered : Result Error (Str × Source) × Rows → Type 0
    IsCovered (r, rows) =
        (body : Str) × (source : Source) × (r ≡ ok (body, source))
        × ((body ≡ c.body) ⊎ (IsSent body × (source ≡ source_upstream)))

    serve-IsCovered :
        (a : Result FetchError (Option Str × Str)) (rows : Rows)
        → IsSentAnswer a
        → IsCovered (serve env (feed_cache read write now) url own_key put_at (some c) a rows)
    unfolding serve store_copy
    serve-IsCovered (err e) rows sent = (_, _, refl, inl refl)
    serve-IsCovered (ok (none, etag)) rows sent = (_, _, refl, inl refl)
    serve-IsCovered (ok (some body, etag)) rows sent = (_, _, refl, inr (sent, refl))

    -- While the cache has a copy under a fetch's key and can be read, the fetch returns a body,
    -- whether the server answers or not: the copy's, or one that the server has sent with status 200
    -- to a request for the same URL with the same credentials.
    pub fetch_auth-IsCovered :
        (ttl : ℤ) (at : Time) (rows : Rows)
        → read ≡ none
        → Dict.lookup own_key rows ≡ some c
        → (body : Str) × (source : Source) × ((fetch_auth env
              (feed_cache read write now)
              url
              ttl
              username
              password
              at
              put_at
              rows).0
            ≡ ok (body, source))
          × ((body ≡ c.body) ⊎ (IsSent body × (source ≡ source_upstream)))
    unfolding fetch_auth feed_cache get_cached_feed row_or from_cache refetch
    fetch_auth-IsCovered ttl at rows readable found = elim (Bool-cases (is_fresh ttl at c)) [
      | inl t ↦ rw (readable, found, t) (c.body, source_cache_fresh, refl, inl refl)
      | inr f ↦
          rw (readable, found, f)
            (serve-IsCovered (fetch_upstream env url (some c) username password) rows
              (fetch_upstream-IsSent (some c)))
    ]
