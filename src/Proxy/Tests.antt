-- ===== src/Proxy/Tests.antt =====
-- internal/proxy/proxy.go: fetches from a server that answers with a fixed feed.
use tidy_dav.Prelude.{
  ◌≡◌, refl, ◌⊎◌, ap, subst, Str, str, Option, none, some, [], ◌∷◌, take, ◌+◌, ◌*◌, list_eq, nat_eq,
}
use tidy_dav.Prelude.Int.{pos}
use tidy_dav.Prelude.Clock.{second}
use tidy_dav.Prelude.Dict
use tidy_dav.Prelude.Result.{Result, ok, err}
use tidy_dav.Store.FeedCache.{CachedFeed, Rows}
use tidy_dav.Proxy.{
  Source, max_feed_size, Request, Response, Env, source_upstream, source_cache_fresh,
  source_cache_stale, cache_key, fetch_auth,
}
use tidy_dav.Proxy.Served.{feed_cache, IsServed, IsScoped, IsOwnResult, fetch_auth-IsScopedRun}
use tidy_dav.Proxy.Anonymous.{fetch_auth-anonymous}
use tidy_dav.Proxy.Cached.{IsSent, fetch_auth-again, fetch_auth-IsCovered}

abbrev sent : Response
sent = record { status = 200; etag = str "v1"; body = ok (str "feed") }

abbrev down : Request → Result Str Response
down r = err (str "refused")

abbrev env : Env
env = record { sha256 = λ s. s; redact_url = λ s. s; exchange = λ r. ok sent }

abbrev url : Str
url = str "u"

abbrev copied : CachedFeed
copied = record {
  key = url;
  url = url;
  body = str "feed";
  etag = str "v1";
  fetched_at = 5 * second;
}

abbrev stored : Rows
stored = (url, copied) ∷ []

abbrev IsFeed : Str → Option (Str × Str) → Str → Type 0
IsFeed u a body = body ≡ str "feed"

first_run :
    fetch_auth env (feed_cache none none 9) url (pos 7) [] [] (5 * second) (5 * second) []
    ≡ (ok (str "feed", source_upstream), stored)
unfolding fetch_auth feed_cache Dict.lookup Dict.insert
first_run = refl

stale_run :
    fetch_auth
      (record env { exchange = down })
      (feed_cache none none 9)
      url
      (pos 7)
      []
      []
      (9 * second)
      1
      stored
    ≡ (ok (str "feed", source_cache_stale), stored)
unfolding fetch_auth feed_cache Dict.lookup list_eq nat_eq
stale_run = refl

env-IsServed : IsServed env IsFeed
env-IsServed r a body is status read =
    let same : str "feed" ≡ body = cc in subst (λ b. take max_feed_size b ≡ str "feed") same refl

nothing-IsScoped : IsScoped env IsFeed []
unfolding Dict.lookup
nothing-IsScoped key c found = cc

stored_url : Dict.lookup url stored ≡ some copied
unfolding Dict.lookup list_eq nat_eq
stored_url = refl

fetch_auth-IsScopedRun_example :
    IsOwnResult env IsFeed url (fetch_auth env (feed_cache none none 9) url (pos 7) [] [] 5 1 []).0
    × IsScoped env IsFeed (fetch_auth env (feed_cache none none 9) url (pos 7) [] [] 5 1 []).1
unfolding cache_key
fetch_auth-IsScopedRun_example =
    fetch_auth-IsScopedRun env IsFeed url [] [] none none 1 9 (pos 7) 5 env-IsServed []
      nothing-IsScoped

fetch_auth-anonymous_example : IsFeed url none (str "feed")
unfolding nat_eq
fetch_auth-anonymous_example =
    fetch_auth-anonymous env IsFeed url none none (5 * second) 9 (pos 7) (5 * second) []
      (str "feed") source_upstream env-IsServed nothing-IsScoped refl (ap (λ r. r.0) first_run)

fetch_auth-again_example :
    fetch_auth
      (record env { exchange = down })
      (feed_cache none none 9)
      url
      (pos 7)
      []
      []
      (5 * second + 3)
      1
      stored
    ≡ (ok (str "feed", source_cache_fresh), stored)
fetch_auth-again_example =
    fetch_auth-again env url [] [] none (5 * second) 9 down none (pos 7) (pos 7) (5 * second)
      (5 * second + 3) 1 9 (str "feed") [] stored refl first_run refl

fetch_auth-IsCovered_example :
    (body : Str) × (source : Source) × ((fetch_auth env
        (feed_cache none none 9)
        url
        (pos 7)
        []
        []
        (9 * second)
        1
        stored).0
      ≡ ok (body, source))
    × ((body ≡ copied.body) ⊎ (IsSent env url [] [] none 1 9 body × (source ≡ source_upstream)))
unfolding cache_key
fetch_auth-IsCovered_example =
    fetch_auth-IsCovered env url [] [] none 1 9 none copied (pos 7) (9 * second) stored refl
      stored_url
