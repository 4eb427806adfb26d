-- ===== src/Proxy/Anonymous.antt =====
-- internal/proxy/proxy.go: what a fetch without credentials may return.
use tidy_dav.Prelude.{
  ◌≡◌, refl, sym, ◌∙◌, subst, inl, inr, Str, true, false, ◌&&◌, Option, none, [], ◌∷◌, ◌++◌,
  is_empty, list_eq, nat_eq, contains, contains-cons_self, contains-cons_of, Bool-cases,
}
use tidy_dav.Prelude.Int.{ℤ}
use tidy_dav.Prelude.Clock.{Time}
use tidy_dav.Prelude.Result.{ok}
use tidy_dav.Store.FeedCache.{Rows}
use tidy_dav.Proxy.{Env, Source, cache_key, auth, fetch_auth}
use tidy_dav.Proxy.Served.{
  feed_cache, IsServed, IsOwn, IsScoped, IsOwnResult, fetch_auth-IsScopedRun,
}

module _ (env : Env) (P : Str → Option (Str × Str) → Str → Type 0) where
  contains-append_cons : (xs ys : Str) → contains (xs ++ 0 ∷ ys) 0 ≡ true
  contains-append_cons [] ys = contains-cons_self 0 ys
  contains-append_cons (x ∷ xs) ys =
      contains-cons_of 0 x (xs ++ 0 ∷ ys) (contains-append_cons xs ys)

  auth-none :
      (username password : Str)
      → (is_empty username && is_empty password) ≡ true
      → auth username password ≡ none
  auth-none [] password h = refl
  auth-none (c ∷ cs) password h = cc

  key_plain :
      (url username password : Str)
      → (is_empty username && is_empty password) ≡ true
      → cache_key env url username password ≡ url
  unfolding cache_key
  key_plain url username password h = rw h

  contains-cache_key :
      (url username password : Str)
      → (is_empty username && is_empty password) ≡ false
      → contains (cache_key env url username password) 0 ≡ true
  unfolding cache_key
  contains-cache_key url username password h = rw (h, contains-append_cons url)

  -- A key that is a URL without a NUL byte is of a request without credentials.
  IsOwn-anonymous :
      (url body : Str) → contains url 0 ≡ false → IsOwn env P url body → P url none body
  IsOwn-anonymous url body plain (from, username, password, same, p) =
      elim (Bool-cases (is_empty username && is_empty password)) [
        | inl t ↦
            subst (λ u. P u none body) (sym (key_plain from username password t) ∙ same)
              (subst (λ a. P from a body) (auth-none username password t) p)
        | inr f ↦
            let secret : contains (cache_key env from username password) 0 ≡ true =
              contains-cache_key from username password f in
            cc
      ]

  -- A fetch without credentials, of a URL without a NUL byte, never returns a body that the server
  -- sent only on a request with credentials: what it returns was sent for the URL without them, if
  -- the copies in the cache were each sent for a request of their key.
  pub fetch_auth-anonymous :
      (url : Str) (read write : Option Str) (put_at now : Time) (ttl : ℤ) (at : Time) (rows : Rows)
      (body : Str) (source : Source)
      → IsServed env P
      → IsScoped env P rows
      → contains url 0 ≡ false
      → (fetch_auth env (feed_cache read write now) url ttl [] [] at put_at rows).0
        ≡ ok (body, source)
      → P url none body
  unfolding cache_key
  fetch_auth-anonymous url read write put_at now ttl at rows body source served h plain returned =
      IsOwn-anonymous url body plain (
        subst (IsOwnResult env P url) returned
          (fetch_auth-IsScopedRun env P url [] [] read write put_at now ttl at served rows h).0)
