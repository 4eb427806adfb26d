-- ===== src/Proxy/Served.antt =====
-- internal/proxy/proxy.go: which requests a served body comes from.
use tidy_dav.Prelude.{
  ℕ, ◌≡◌, refl, sym, inl, inr, Str, false, ◌&&◌, Option, none, some, [], ◌∷◌, ◌++◌, take, eqb,
  is_empty, list_eq, nat_eq, arith, if◌then◌else◌, Bool-cases,
}
use tidy_dav.Prelude.Int.{ℤ}
use tidy_dav.Prelude.Clock.{Time}
use tidy_dav.Prelude.Dict
use tidy_dav.Prelude.Result.{Result, ok, err}
use tidy_dav.Store.Types
use tidy_dav.Store.FeedCache.{CachedFeed, Rows, row_or, get_cached_feed, put_row, put_cached_feed}
use tidy_dav.Proxy.{
  max_feed_size, Request, Response, Env, Cache, Source, Error, FetchError, cache_key, auth, request,
  read_body, not_modified, answer, fetch_upstream, store_copy, serve, is_fresh, refetch, from_cache,
  fetch_auth,
}

-- The store as the fetcher's cache. Each argument is the error of its statement, if it fails.
unfoldable pub feed_cache : Option Str → Option Str → Time → Cache Rows
unfolding get_cached_feed put_cached_feed
feed_cache read write now = record { get = get_cached_feed read; put = put_cached_feed write now }

row_or-some : (o : Option CachedFeed) (c : CachedFeed) → row_or o ≡ ok c → o ≡ some c
unfolding row_or
row_or-some none c h = cc
row_or-some (some d) c h = cc

get_cached_feed-row :
    (db : Option Str) (key : Str) (rows : Rows) (c : CachedFeed)
    → get_cached_feed db key rows ≡ ok c
    → Dict.lookup key rows ≡ some c
unfolding get_cached_feed
get_cached_feed-row none key rows c h = row_or-some (Dict.lookup key rows) c h
get_cached_feed-row (some e) key rows c h = cc

module _ (env : Env) where
  is_empty-append_cons : (xs ys : Str) (c : ℕ) → is_empty (xs ++ c ∷ ys) ≡ false
  is_empty-append_cons [] ys c = refl
  is_empty-append_cons (x ∷ xs) ys c = refl

  empty_is_url : (url : Str) → (if is_empty url then url else url) ≡ url
  empty_is_url [] = refl
  empty_is_url (x ∷ xs) = refl

  -- The key that `PutCachedFeed` would replace by the URL is the URL.
  pub key_or-url :
      (url username password : Str)
      → (if is_empty (cache_key env url username password)
          then url
          else cache_key env url username password)
        ≡ cache_key env url username password
  unfolding cache_key
  key_or-url url username password = elim (Bool-cases (is_empty username && is_empty password)) [
    | inl t ↦ rw (t, empty_is_url url)
    | inr f ↦ rw (f, is_empty-append_cons url)
  ]

module _ (env : Env) (P : Str → Option (Str × Str) → Str → Type 0) where
  -- Every body that the server sends on a request has the property, for the URL and the
  -- credentials of the request.
  abbrev pub IsServed : Type 0
  IsServed =
      (r : Request)
      → (a : Response) → (body : Str) → env.exchange r ≡ ok a
      → a.status ≡ 200
      → a.body ≡ ok body
      → P r.url r.auth (take max_feed_size body)

  -- The body belongs to a URL and credentials that have this cache key.
  abbrev pub IsOwn : Str → Str → Type 0
  IsOwn key body =
      (url : Str) × (username : Str) × (password : Str) × (cache_key env url username password
        ≡ key)
      × P url (auth username password) body

  -- Every copy in the cache is kept under the key of the request that brought it.
  abbrev pub IsScoped : Rows → Type 0
  IsScoped rows = (key : Str) → (c : CachedFeed) → Dict.lookup key rows ≡ some c → IsOwn key c.body

  abbrev pub IsOwnResult : Str → Result Error (Str × Source) → Type 0
  IsOwnResult key (ok (body, source)) = IsOwn key body
  IsOwnResult key (err e) = Unit

  abbrev IsOwnCopy : Str → Option CachedFeed → Type 0
  IsOwnCopy key none = Unit
  IsOwnCopy key (some c) = IsOwn key c.body

  -- What `fetchUpstream` answers: a body of its own, or that there is nothing new.
  abbrev IsOwnAnswer : Str → Result FetchError (Option Str × Str) → Type 0
  IsOwnAnswer key (ok (some body, etag)) = IsOwn key body
  IsOwnAnswer key _ = Unit

  read_body-IsOwn :
      (key etag : Str) (body : Result Str Str)
      → ((b : Str) → body ≡ ok b → IsOwn key (take max_feed_size b))
      → IsOwnAnswer key (read_body etag body)
  unfolding read_body
  read_body-IsOwn key etag (ok b) own = own b refl
  read_body-IsOwn key etag (err e) own = tt

  not_modified-IsOwn :
      (key : Str) (cached : Option CachedFeed) → IsOwnAnswer key (not_modified cached)
  unfolding not_modified
  not_modified-IsOwn key none = tt
  not_modified-IsOwn key (some c) = tt

  answer-IsOwn :
      (url username password : Str) (cached : Option CachedFeed) (r : Result Str Response)
      → IsServed
      → env.exchange (request url cached username password) ≡ r
      → IsOwnAnswer (cache_key env url username password) (answer cached r)
  unfolding answer request
  answer-IsOwn url username password cached (err e) served sent = tt
  answer-IsOwn url username password cached (ok a) served sent =
      elim (Bool-cases (eqb a.status 304)) [
        | inl t ↦ rw t (not_modified-IsOwn (cache_key env url username password) cached)
        | inr f ↦ elim (Bool-cases (eqb a.status 200)) [
          | inl t ↦
              rw (f, t)
                (read_body-IsOwn (cache_key env url username password) a.etag a.body (λ b read. (
                  url,
                  username,
                  password,
                  refl,
                  served (request url cached username password) a b sent (ground arith) read,
                )))
          | inr g ↦ rw (f, g) tt
        ]
      ]

  insert-IsScoped :
      (key : Str) (c : CachedFeed) (rows : Rows)
      → IsScoped rows
      → IsOwn key c.body
      → IsScoped (Dict.insert key c rows)
  insert-IsScoped key c rows h own j d found =
      elim (Dict.lookup-insert_cases j key c d rows found) [
        | inl (at, is) ↦ rw (at, sym is) own
        | inr before ↦ h j d before
      ]

  module _ (url username password : Str) (read write : Option Str) (put_at now : Time) where
    abbrev pub key : Str
    key = cache_key env url username password

    -- A run's result is scoped and so is the cache that it leaves.
    abbrev pub IsScopedRun : Result Error (Str × Source) × Rows → Type 0
    IsScopedRun (r, rows) = IsOwnResult key r × IsScoped rows

    store_copy-IsScoped :
        (w : Option Str) (body etag : Str) (rows : Rows)
        → IsScoped rows
        → IsOwn key body
        → IsScopedRun (store_copy env (feed_cache read w now) url key put_at body etag rows)
    unfolding store_copy feed_cache put_cached_feed put_row
    store_copy-IsScoped none body etag rows h own =
        (own, insert-IsScoped _ _ rows h (rw (key_or-url env url username password) own))
    store_copy-IsScoped (some e) body etag rows h own = (own, h)

    serve-IsScoped :
        (cached : Option CachedFeed) (a : Result FetchError (Option Str × Str)) (rows : Rows)
        → IsScoped rows
        → IsOwnCopy key cached
        → IsOwnAnswer key a
        → IsScopedRun (serve env (feed_cache read write now) url key put_at cached a rows)
    unfolding serve
    serve-IsScoped (some c) (err e) rows h own new = (own, h)
    serve-IsScoped none (err e) rows h own new = (tt, h)
    serve-IsScoped (some c) (ok (none, etag)) rows h own new =
        store_copy-IsScoped write c.body etag rows h own
    serve-IsScoped none (ok (none, etag)) rows h own new = (tt, h)
    serve-IsScoped (some c) (ok (some body, etag)) rows h own new =
        store_copy-IsScoped write body etag rows h new
    serve-IsScoped none (ok (some body, etag)) rows h own new =
        store_copy-IsScoped write body etag rows h new

    module _ (ttl : ℤ) (at : Time) (served : IsServed) where
      refetch-IsScoped :
          (cached : Option CachedFeed) (rows : Rows)
          → IsScoped rows
          → IsOwnCopy key cached
          → IsScopedRun (
              refetch env
                (feed_cache read write now)
                url
                ttl
                username
                password
                at
                put_at
                cached
                rows)
      unfolding refetch fetch_upstream
      refetch-IsScoped cached rows h own =
          serve-IsScoped cached _ rows h own
            (answer-IsOwn url username password cached _ served refl)

      from_cache-IsScoped :
          (found : Result Types.Error CachedFeed) (rows : Rows)
          → IsScoped rows
          → ((c : CachedFeed) → found ≡ ok c → IsOwn key c.body)
          → IsScopedRun (
              from_cache env
                (feed_cache read write now)
                url
                ttl
                username
                password
                at
                put_at
                found
                rows)
      unfolding from_cache
      from_cache-IsScoped (err Types.not_found) rows h own = refetch-IsScoped none rows h tt
      from_cache-IsScoped (err (Types.failed c e)) rows h own = (tt, h)
      from_cache-IsScoped (ok c) rows h own = elim (Bool-cases (is_fresh ttl at c)) [
        | inl t ↦ rw t (own c refl, h)
        | inr f ↦ rw f (refetch-IsScoped (some c) rows h (own c refl))
      ]

      -- Whatever the cache and the server answer, a body that a fetch returns, and every copy in the
      -- cache after it, is one that the server sent for a URL and credentials of the same cache
      -- key, if that held of the copies before.
      pub fetch_auth-IsScopedRun :
          (rows : Rows)
          → IsScoped rows
          → IsOwnResult key
              (fetch_auth env
                (feed_cache read write now)
                url
                ttl
                username
                password
                at
                put_at
                rows).0
            × IsScoped
                (fetch_auth env
                  (feed_cache read write now)
                  url
                  ttl
                  username
                  password
                  at
                  put_at
                  rows).1
      unfolding fetch_auth feed_cache
      fetch_auth-IsScopedRun rows h =
          from_cache-IsScoped _ rows h
            (λ c found. h key c (get_cached_feed-row read key rows c found))
