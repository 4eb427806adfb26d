-- ===== src/Auth/Recovery.antt =====
-- internal/auth/reset.go: asking for a password reset and confirming it.
use tidy_dav.Prelude.{
  ◌+◌, Str, str, Bool, true, false, Option, none, some, List, ◌∷◌, ◌++◌, is_empty, ltb,
  if◌then◌else◌,
}
use tidy_dav.Prelude.Result.{Result, ok, err}
use tidy_dav.Prelude.Clock.{Time}
use tidy_dav.Store.Types
use tidy_dav.Store.Users.{User, user_by_email, update_user_password}
use tidy_dav.Store.Sessions.{
  PasswordReset, create_password_reset, password_reset_by_token_hash, delete_password_reset,
}
use tidy_dav.Auth.{
  Error, invalid_credentials, invalid_reset_token, store, system, World, Env, reset_ttl,
  normal_email, hash_secret, failure, tick, draw,
}

module _ (env : Env) where
  abbrev sent : Option Str → Result Error (Unit {0})
  sent none = ok tt
  sent (some e) = err (system e)

  unfoldable pub mail_token :
      Str → Str → Result Types.Error (Unit {0}) → World → Result Error (Unit {0}) × World
  mail_token email token (err e) w = (err (store e), w)
  mail_token email token (ok _) w =
      let link = env.cfg.base_url ++ str "/reset?token=" ++ token in
      (sent (env.mail email link), record w { mails = (email, link) ∷ w.mails })

  unfoldable pub issue_token :
      Str → User → Time → Result Str Str → World → Result Error (Unit {0}) × World
  unfolding mail_token create_password_reset hash_secret
  issue_token email u now (err e) w = (err (system e), w)
  issue_token email u now (ok token) w =
      let (r, rows) =
        create_password_reset (failure env w)
          (record {
            token_hash = hash_secret env token;
            user_id = u.id;
            expires_at = now + reset_ttl;
          })
          w.resets in
      mail_token email token r (tick (record w { resets = rows }))

  abbrev has_value : Option Str → Bool
  has_value none = false
  has_value (some s) = true

  unfoldable pub request_for :
      Str → Time → Result Types.Error User → World → Result Error (Unit {0}) × World
  unfolding issue_token
  request_for email now (err Types.not_found) w = (ok tt, w)
  request_for email now (err e) w = (err (store e), w)
  request_for email now (ok u) w =
      if has_value u.password_hash
      then issue_token email u now (env.uuid w.drawn) (draw w)
      else (ok tt, w)

  -- `RequestPasswordReset`
  unfoldable pub request_password_reset : Str → Time → World → Result Error (Unit {0}) × World
  unfolding request_for normal_email
  request_password_reset email now w =
      request_for (normal_email env email) now
        (user_by_email (failure env w) (normal_email env email) w.users) (tick w)

  abbrev drop_reset : Str → World → World
  drop_reset hash w =
      tick (record w { resets = (delete_password_reset (failure env w) hash w.resets).1 })

  -- The new password is written, and then the token is used up; an error of its removal is ignored.
  unfoldable pub after_update :
      Str → Result Types.Error (Unit {0}) × List User → World → Result Error (Unit {0}) × World
  after_update hash (err e, us) w = (err (store e), tick (record w { users = us }))
  after_update hash (ok _, us) w = (ok tt, drop_reset hash (tick (record w { users = us })))

  unfoldable pub set_hash : PasswordReset → Result Str Str → World → Result Error (Unit {0}) × World
  unfolding after_update update_user_password
  set_hash r (err e) w = (err (system e), w)
  set_hash r (ok hash) w =
      after_update r.token_hash (update_user_password (failure env w) r.user_id hash w.users) w

  -- The first argument says whether the token has expired.
  unfoldable pub by_age : Bool → PasswordReset → Str → World → Result Error (Unit {0}) × World
  unfolding set_hash
  by_age true r password w = (err invalid_reset_token, drop_reset r.token_hash w)
  by_age false r password w = set_hash r (env.hash_password password) w

  unfoldable pub with_reset :
      Str → Time → Result Types.Error PasswordReset → World → Result Error (Unit {0}) × World
  unfolding by_age
  with_reset password now (err Types.not_found) w = (err invalid_reset_token, w)
  with_reset password now (err e) w = (err (store e), w)
  with_reset password now (ok r) w = by_age (ltb r.expires_at now) r password w

  -- The first argument says whether the new password is blank.
  unfoldable pub confirm_unless : Bool → Str → Str → Time → World → Result Error (Unit {0}) × World
  unfolding with_reset
  confirm_unless true token password now w = (err invalid_credentials, w)
  confirm_unless false token password now w =
      with_reset password now
        (password_reset_by_token_hash (failure env w) (hash_secret env token) w.resets) (tick w)

  -- `ConfirmPasswordReset`
  unfoldable pub confirm_password_reset : Str → Str → Time → World → Result Error (Unit {0}) × World
  unfolding confirm_unless
  confirm_password_reset token password now w =
      confirm_unless (is_empty (env.trim_space password)) token password now w
