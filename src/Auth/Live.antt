-- ===== src/Auth/Live.antt =====
-- internal/auth/session.go: whom a cookie stands for.
use tidy_dav.Prelude.{
  ℕ, ◌+◌, ◌≡◌, refl, ap, subst, Str, Bool, true, false, Option, none, some, List, ltb, list_eq,
  nat_eq, ◌==◌, arith,
}
use tidy_dav.Prelude.Dict
use tidy_dav.Prelude.Dict.{Dict}
use tidy_dav.Prelude.Result.{Result, ok, err, map_err}
use tidy_dav.Prelude.Clock.{Time, at_second}
use tidy_dav.Store.Types
use tidy_dav.Store.Users.{User, first, found, user_by, user_by_id}
use tidy_dav.Store.Sessions.{
  Session, row, select, insert_if_new, insert_row, session_row, create_session, session_by_id,
  delete_session,
}
use tidy_dav.Auth.{Env, World, store, session_ttl}
use tidy_dav.Auth.Login.{
  store_session, start_session, by_expiry, with_session, user_from_request, logout, cookie,
}

row-some : {A : Type 0} (o : Option A) (a : A) → row o ≡ ok a → o ≡ some a
row-some none a h = cc
row-some (some b) a h = cc

pub select-row :
    {A : Type 0} (context : Str) (db : Option Str) (key : Str) (rows : Dict Str A) (a : A)
    → select context db key rows ≡ ok a
    → Dict.lookup key rows ≡ some a
unfolding select
select-row context none key rows a h = row-some (Dict.lookup key rows) a h
select-row context (some e) key rows a h = cc

found-some : (o : Option User) (u : User) → found o ≡ ok u → o ≡ some u
found-some none u h = cc
found-some (some v) u h = cc

pub user_by-first :
    (db : Option Str) (p : User → Bool) (us : List User) (u : User)
    → user_by db p us ≡ ok u
    → first p us ≡ some u
unfolding user_by
user_by-first none p us u h = found-some (first p us) u h
user_by-first (some e) p us u h = cc

pub map_err-ok : {A : Type 0} (r : Result Types.Error A) (a : A) → map_err store r ≡ ok a → r ≡ ok a
map_err-ok (ok b) a h = cc
map_err-ok (err e) a h = cc

module _ (env : Env) where
  by_expiry-false :
      (b : Bool) (s : Session) (w : World) (u : User)
      → (by_expiry env b s w).0 ≡ ok u
      → (b ≡ false) × (first (λ v. v.id == s.user_id) w.users ≡ some u)
  unfolding by_expiry user_by_id
  by_expiry-false true s w u h = cc
  by_expiry-false false s w u h =
      (refl, user_by-first _ _ w.users u (map_err-ok (user_by_id _ s.user_id w.users) u h))

  with_session-ok :
      (now : Time) (r : Result Types.Error Session) (w : World) (u : User)
      → (with_session env now r w).0 ≡ ok u
      → (s : Session) × (r ≡ ok s)
        × (ltb s.expires_at now ≡ false)
        × (first (λ v. v.id == s.user_id) w.users ≡ some u)
  unfolding with_session
  with_session-ok now (err e) w u h = cc
  with_session-ok now (ok s) w u h =
      let (live, own) = by_expiry-false (ltb s.expires_at now) s w u h in (s, refl, live, own)

  -- A request has a user only through a cookie that names a session in the table which has not
  -- expired, and the user is the session's, whichever statements fail.
  pub user_from_request-IsOf :
      (c : Option Str) (now : Time) (w : World) (u : User)
      → (user_from_request env c now w).0 ≡ ok u
      → (token : Str) × (s : Session) × (c ≡ some token)
        × (Dict.lookup token w.sessions ≡ some s)
        × (ltb s.expires_at now ≡ false)
        × (first (λ v. v.id == s.user_id) w.users ≡ some u)
  unfolding user_from_request session_by_id
  user_from_request-IsOf none now w u h = cc
  user_from_request-IsOf (some token) now w u h =
      let (s, found, live, own) = with_session-ok now _ _ u h in
      (token, s, refl, select-row _ _ token w.sessions s found, live, own)

-- No statement fails.
abbrev pub Runs : Env → Type 0
Runs env = (k : ℕ) → env.db k ≡ none

insert_if_new-row :
    {A : Type 0} (context key : Str) (a : A) (rows : Dict Str A) (old : Option A)
    → (insert_if_new context key a rows old).0 ≡ ok tt
    → Dict.lookup key (insert_if_new context key a rows old).1 ≡ some a
insert_if_new-row context key a rows none h = ground (arith, Dict.lookup-insert key key a rows)
insert_if_new-row context key a rows (some b) h = cc

insert_row-row :
    {A : Type 0} (context : Str) (db : Option Str) (key : Str) (a : A) (rows : Dict Str A)
    → (insert_row context db key a rows).0 ≡ ok tt
    → Dict.lookup key (insert_row context db key a rows).1 ≡ some a
unfolding insert_row
insert_row-row context none key a rows h = insert_if_new-row context key a rows _ h
insert_row-row context (some e) key a rows h = cc

cookie-ok :
    (env : Env) (c d : Str × Time) (r : Result Types.Error (Unit {0}))
    → cookie env c r ≡ ok d
    → (r ≡ ok tt) × (c ≡ d)
cookie-ok env c d (ok tt) h = (refl, cc)
cookie-ok env c d (err e) h = cc

module _ (env : Env) (runs : Runs env) where
  store_session-row :
      (u : User) (now : Time) (r : Result Str Str) (w : World) (token : Str) (expires : Time)
      → (store_session env u now r w).0 ≡ ok (token, expires)
      → (s : Session) × (Dict.lookup token (store_session env u now r w).1.sessions ≡ some s)
        × (s.user_id ≡ u.id)
        × (s.expires_at ≡ at_second (now + session_ttl))
  unfolding store_session create_session session_row
  store_session-row u now (err e) w token expires h = cc
  store_session-row u now (ok t) w token expires h =
      let (stored, same) = cookie-ok env (t, now + session_ttl) (token, expires) _ h in
      let s : Session =
        session_row now
          (record { id = t; user_id = u.id; created_at = now; expires_at = now + session_ttl }) in
      (
        s,
        subst (λ k. Dict.lookup k (store_session env u now (ok t) w).1.sessions ≡ some s)
            (ap (λ c. c.0) same) (insert_row-row _ _ t s w.sessions stored),
        refl,
        refl,
      )

  session_by_id-row :
      (w : World) (c : Str)
      → session_by_id (env.db w.statements) c w.sessions ≡ row (Dict.lookup c w.sessions)
  unfolding session_by_id select
  session_by_id-row w c = rw (runs w.statements) refl

  by_expiry-user :
      (b : Bool) (s : Session) (w : World) (u : User)
      → b ≡ false
      → first (λ v. v.id == s.user_id) w.users ≡ some u
      → (by_expiry env b s w).0 ≡ ok u
  unfolding by_expiry user_by_id user_by
  by_expiry-user true s w u live own = cc
  by_expiry-user false s w u live own = rw (runs w.statements, own) refl

  user_from_request-live :
      (w : World) (c : Str) (s : Session) (later : Time) (u : User)
      → Dict.lookup c w.sessions ≡ some s
      → ltb s.expires_at later ≡ false
      → first (λ v. v.id == s.user_id) w.users ≡ some u
      → (user_from_request env (some c) later w).0 ≡ ok u
  unfolding user_from_request with_session
  user_from_request-live w c s later u there live own =
      rw (session_by_id-row w c, there) (by_expiry-user (ltb s.expires_at later) s _ u live own)

  user_from_request-gone :
      (w : World) (c : Str) (later : Time)
      → Dict.lookup c w.sessions ≡ none
      → (user_from_request env (some c) later w).0 ≡ err (store Types.not_found)
  unfolding user_from_request with_session
  user_from_request-gone w c later gone = rw (session_by_id-row w c, gone) refl

  store_session-users :
      (u : User) (now : Time) (r : Result Str Str) (w : World)
      → (store_session env u now r w).1.users ≡ w.users
  unfolding store_session
  store_session-users u now (err e) w = refl
  store_session-users u now (ok t) w = refl

-- Where no statement fails, the cookie of a session that has been started stands for its user, who
-- is in the table, until the session expires, 30 days later to the second.
pub user_from_request-start_session :
    (env : Env) (u : User) (now later : Time) (w : World) (token : Str) (expires : Time)
    → Runs env
    → (start_session env u now w).0 ≡ ok (token, expires)
    → first (λ v. v.id == u.id) w.users ≡ some u
    → ltb (at_second (now + session_ttl)) later ≡ false
    → (user_from_request env (some token) later (start_session env u now w).1).0 ≡ ok u
unfolding start_session
user_from_request-start_session env u now later w token expires runs started own live =
    let (s, there, same, till) = store_session-row env runs u now _ _ token expires started in
    user_from_request-live env runs _ token s later u there (rw till live)
      (rw (same, store_session-users env runs u now) own)

pub lookup-erase_self :
    {A : Type 0} (k : Str) (rows : Dict Str A) → Dict.lookup k (Dict.erase k rows) ≡ none
lookup-erase_self k rows = ground (arith, Dict.lookup-erase k k rows)

-- Where no statement fails, the cookie of a session that has been logged out stands for nobody.
pub user_from_request-logout :
    (env : Env) (c : Str) (later : Time) (w : World)
    → Runs env
    → (user_from_request env (some c) later (logout env (some c) w).1).0
      ≡ err (store Types.not_found)
unfolding logout delete_session
user_from_request-logout env c later w runs =
    user_from_request-gone env runs _ c later
      (rw (runs w.statements) (lookup-erase_self c w.sessions))
