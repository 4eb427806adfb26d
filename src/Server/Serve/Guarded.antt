-- ===== src/Server/Serve/Guarded.antt =====
-- internal/server/handlers.go: who is given a calendar, and when its body is left out.
use tidy_dav.Prelude.{
  ◌≡◌, refl, sym, ap, ◌⊎◌, ◌&&◌, is_empty, Str, Bool, true, false, Option, none, some, List, [],
  ◌∷◌, Among, list_eq, nat_eq, ◌==◌, if◌then◌else◌, Bool-cases, inl, inr, eq_of_==,
}
use tidy_dav.Prelude.Result.{Result, ok, err}
use tidy_dav.Store.Types
use tidy_dav.Store.Types.{not_found, failed}
use tidy_dav.Store.FeedCache.{Rows}
use tidy_dav.Store.Feeds.{Feed, first_feed, feed_by, feed_by_secret}
use tidy_dav.Server.{Env, World, failure, tick}
use tidy_dav.Server.Serve.{
  Answer, page_not_found, internal_error, unauthorized, bad_gateway, not_modified, calendar,
  entity_tag, etag_matches, valid_basic_auth, is_allowed, answer_body, rendered, if_allowed,
  looked_up, handle_ics,
}

first_ok :
    (g f : Feed) (rest : Result Types.Error Feed) → (if true then ok g else rest) ≡ ok f → g ≡ f
first_ok g f rest e = cc

first_feed-found :
    (p : Feed → Bool) (fs : List Feed) (f : Feed)
    → first_feed p fs ≡ ok f
    → Among f fs × (p f ≡ true)
unfolding first_feed
first_feed-found p [] f e = cc
first_feed-found p (g ∷ gs) f e = elim (Bool-cases (p g)) [
  | inl t ↦
      let same : g ≡ f = first_ok g f (first_feed p gs) (rw t at e) in
      (inl (sym same), rw (← same) t)
  | inr n ↦ let (among, holds) = first_feed-found p gs f (rw n at e) in (inr among, holds)
]

feed_by_secret-found :
    (db : Option Str) (secret : Str) (fs : List Feed) (f : Feed)
    → feed_by_secret db secret fs ≡ ok f
    → Among f fs × (f.secret ≡ secret)
unfolding feed_by_secret feed_by
feed_by_secret-found none secret fs f e =
    let (among, holds) = first_feed-found (λ g. g.secret == secret) fs f e in
    (among, eq_of_== f.secret secret holds)
feed_by_secret-found (some x) secret fs f e = cc

-- The feed has no password, or the request has its user and a password that passes the check.
abbrev pub IsAdmitted : Env → Option (Str × Str) → Feed → Type 0
IsAdmitted env auth f =
    (f.basic_auth_hash ≡ [])
    ⊎ ((pass : Str) × (auth ≡ some (f.basic_auth_user, pass))
        × (env.check_password f.basic_auth_hash pass ≡ true))

is_empty-nil : (s : Str) → is_empty s ≡ true → s ≡ []
is_empty-nil [] e = refl
is_empty-nil (c ∷ s) e = cc

both : (a b : Bool) → (a && b) ≡ true → (a ≡ true) × (b ≡ true)
both true b e = (refl, e)
both false b e = cc

valid_basic_auth-given :
    (env : Env) (a : Option (Str × Str)) (f : Feed)
    → valid_basic_auth env a f ≡ true
    → (pass : Str) × (a ≡ some (f.basic_auth_user, pass))
      × (env.check_password f.basic_auth_hash pass ≡ true)
unfolding valid_basic_auth
valid_basic_auth-given env none f h = cc
valid_basic_auth-given env (some (user, pass)) f h =
    let (same, passes) =
      both (user == f.basic_auth_user) (env.check_password f.basic_auth_hash pass) h in
    (pass, ap (λ u. some (u, pass)) (eq_of_== user f.basic_auth_user same), passes)

is_allowed-IsAdmitted :
    (env : Env) (auth : Option (Str × Str)) (f : Feed)
    → is_allowed env auth f ≡ true
    → IsAdmitted env auth f
unfolding is_allowed
is_allowed-IsAdmitted env auth f e = elim (Bool-cases (is_empty f.basic_auth_hash)) [
  | inl t ↦ inl (is_empty-nil f.basic_auth_hash t)
  | inr n ↦ inr (valid_basic_auth-given env auth f (rw n at e))
]

module _ (env : Env) (auth : Option (Str × Str)) (header : Str) (w : World) where
  -- The calendar that the feed is rendered to, for a request that may have it.
  abbrev IsServed : Feed → Str → Type 0
  IsServed f body = IsAdmitted env auth f × ((env.render (tick w).statements f w.cache).0 ≡ ok body)

  -- What an answer says: a calendar is that of a feed of the table with the secret, and a table
  -- that is not one of a served calendar is the table of before.
  abbrev pub IsJustified : Str → Answer → List Feed → Type 0
  IsJustified secret (calendar tag body) fs =
      (f : Feed) × Among f w.feeds
      × (f.secret ≡ secret)
      × IsServed f body
      × (tag ≡ entity_tag env body)
      × (etag_matches env header tag ≡ false)
  IsJustified secret (not_modified tag) fs =
      (f : Feed) × (body : Str) × Among f w.feeds
      × (f.secret ≡ secret)
      × IsServed f body
      × (tag ≡ entity_tag env body)
      × (etag_matches env header tag ≡ true)
  IsJustified secret page_not_found fs = fs ≡ w.feeds
  IsJustified secret internal_error fs = fs ≡ w.feeds
  IsJustified secret unauthorized fs = fs ≡ w.feeds
  IsJustified secret bad_gateway fs = fs ≡ w.feeds

  abbrev Justifies : Str → Answer × World → Type 0
  Justifies secret q = IsJustified secret q.0 q.1.feeds

  module _ (secret : Str) (f : Feed) (among : Among f w.feeds) (has : f.secret ≡ secret) where
    answer_body-Justifies :
        (body : Str) (fresh : Bool) (w' : World)
        → IsServed f body
        → etag_matches env header (entity_tag env body) ≡ fresh
        → Justifies secret (answer_body env fresh f body w')
    unfolding answer_body
    answer_body-Justifies body true w' served e = (f, body, among, has, served, refl, e)
    answer_body-Justifies body false w' served e = (f, among, has, served, refl, e)

    rendered-Justifies :
        (q : Result Str Str × Rows)
        → IsAdmitted env auth f
        → (env.render (tick w).statements f w.cache).0 ≡ q.0
        → Justifies secret (rendered env header f q (tick (tick w)))
    unfolding rendered
    rendered-Justifies (err e, rows) allowed same = refl
    rendered-Justifies (ok body, rows) allowed same =
        answer_body-Justifies body _ (record (tick (tick w)) { cache = rows }) (allowed, same) refl

    if_allowed-Justifies :
        (allowed : Bool)
        → is_allowed env auth f ≡ allowed
        → Justifies secret (if_allowed env allowed header f (tick w))
    unfolding if_allowed
    if_allowed-Justifies false e = refl
    if_allowed-Justifies true e =
        rendered-Justifies (env.render (tick w).statements f w.cache)
          (is_allowed-IsAdmitted env auth f e) refl

  looked_up-Justifies :
      (secret : Str) (r : Result Types.Error Feed)
      → feed_by_secret (failure env w) secret w.feeds ≡ r
      → Justifies secret (looked_up env r auth header (tick w))
  unfolding looked_up
  looked_up-Justifies secret (err not_found) e = refl
  looked_up-Justifies secret (err (failed c x)) e = refl
  looked_up-Justifies secret (ok f) e =
      let (among, has) = feed_by_secret-found (failure env w) secret w.feeds f e in
      if_allowed-Justifies secret f among has (is_allowed env auth f) refl

-- A calendar is only given out for a feed of the table that has the secret of the path and that
-- either is not protected or whose user and password the request has; it is what the feed is
-- rendered to, under its tag. The body is left out just where the tag matches If-None-Match. Every
-- other answer leaves the table of feeds as it was.
pub handle_ics-IsJustified :
    (env : Env) (secret : Str) (auth : Option (Str × Str)) (header : Str) (w : World)
    → IsJustified env auth header w secret
        (handle_ics env secret auth header w).0
        (handle_ics env secret auth header w).1.feeds
unfolding handle_ics
handle_ics-IsJustified env secret auth header w =
    looked_up-Justifies env auth header w secret (feed_by_secret (failure env w) secret w.feeds)
      refl
