-- ===== src/Auth/Login.antt =====
-- internal/auth/session.go: starting a session, its user, and its end.
use tidy_dav.Prelude.{◌+◌, Str, Bool, true, false, Option, none, some, ltb}
use tidy_dav.Prelude.Result.{Result, ok, err, map_err}
use tidy_dav.Prelude.Clock.{Time}
use tidy_dav.Store.Types
use tidy_dav.Store.Users.{User, user_by_id}
use tidy_dav.Store.Sessions.{Session, create_session, session_by_id, delete_session}
use tidy_dav.Auth.{Error, store, system, World, Env, session_ttl, failure, tick, draw}

module _ (env : Env) where
  abbrev pub cookie : Str × Time → Result Types.Error (Unit {0}) → Result Error (Str × Time)
  cookie c (ok _) = ok c
  cookie c (err e) = err (store e)

  unfoldable pub store_session :
      User → Time → Result Str Str → World → Result Error (Str × Time) × World
  unfolding create_session
  store_session u now (err e) w = (err (system e), w)
  store_session u now (ok token) w =
      let (r, rows) =
        create_session (failure env w) now
          (record { id = token; user_id = u.id; created_at = now; expires_at = now + session_ttl })
          w.sessions in
      (cookie (token, now + session_ttl) r, tick (record w { sessions = rows }))

  -- `StartSession`: the value of the cookie and the time at which it expires.
  unfoldable pub start_session : User → Time → World → Result Error (Str × Time) × World
  unfolding store_session
  start_session u now w = store_session u now (env.token w.drawn) (draw w)

  -- The first argument says whether the session has expired.
  unfoldable pub by_expiry : Bool → Session → World → Result Error User × World
  by_expiry true s w = (
    err (store Types.not_found),
    tick (record w { sessions = (delete_session (failure env w) s.id w.sessions).1 }),
  )
  by_expiry false s w = (map_err store (user_by_id (failure env w) s.user_id w.users), tick w)

  unfoldable pub with_session :
      Time → Result Types.Error Session → World → Result Error User × World
  unfolding by_expiry
  with_session now (err e) w = (err (store e), w)
  with_session now (ok s) w = by_expiry (ltb s.expires_at now) s w

  -- `UserFromRequest`, on the value of the request's cookie.
  unfoldable pub user_from_request : Option Str → Time → World → Result Error User × World
  unfolding with_session
  user_from_request none now w = (err (store Types.not_found), w)
  user_from_request (some c) now w =
      with_session now (session_by_id (failure env w) c w.sessions) (tick w)

  unfoldable pub logout : Option Str → World → Result Error (Unit {0}) × World
  logout none w = (ok tt, w)
  logout (some c) w =
      let (r, rows) = delete_session (failure env w) c w.sessions in
      (map_err store r, tick (record w { sessions = rows }))
