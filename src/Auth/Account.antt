-- ===== src/Auth/Account.antt =====
-- internal/auth/password.go and secretid.go: accounts with a password and anonymous accounts.
use tidy_dav.Prelude.{
  ◌+◌, Str, str, Bool, true, false, ◌||◌, Option, none, some, [], is_empty, if◌then◌else◌,
}
use tidy_dav.Prelude.Result.{Result, ok, err, map_err}
use tidy_dav.Prelude.Clock.{Time}
use tidy_dav.Store.Types
use tidy_dav.Store.Users.{User, user_by_email, create_user, create_user_bootstrap_admin}
use tidy_dav.Auth.{
  Error, invalid_credentials, registration_closed, email_taken, anonymous_disabled, store, system,
  World, Env, registration_enabled, anonymous_allowed, normal_email, hash_secret, failure, tick,
  draw,
}

module _ (env : Env) where
  abbrev password_user : Str → Str → Str → User
  password_user id email hash = record {
    id = id;
    kind = str "password";
    email = some email;
    password_hash = some hash;
    oidc_subject = none;
    secret_hash = none;
    is_admin = false;
    created_at = 0;
    avatar_url = [];
  }

  unfoldable pub insert_password_user :
      Str → Str → Time → Result Str Str → World → Result Error User × World
  unfolding create_user_bootstrap_admin
  insert_password_user email hash now (err e) w = (err (system e), w)
  insert_password_user email hash now (ok id) w =
      let (r, us) =
        create_user_bootstrap_admin (failure env w) now (password_user id email hash) w.users in
      (map_err store r, tick (record w { users = us }))

  unfoldable pub with_hash : Str → Time → Result Str Str → World → Result Error User × World
  unfolding insert_password_user
  with_hash email now (err e) w = (err (system e), w)
  with_hash email now (ok hash) w = insert_password_user email hash now (env.uuid w.drawn) (draw w)

  unfoldable pub register_free :
      Str → Str → Time → Result Types.Error User → World → Result Error User × World
  unfolding with_hash
  register_free email password now (ok u) w = (err email_taken, w)
  register_free email password now (err Types.not_found) w =
      with_hash email now (env.hash_password password) w
  register_free email password now (err e) w = (err (store e), w)

  -- The first argument says whether the email or the password is empty.
  unfoldable pub register_unless : Bool → Str → Str → Time → World → Result Error User × World
  unfolding register_free
  register_unless true email password now w = (err invalid_credentials, w)
  register_unless false email password now w =
      register_free email password now (user_by_email (failure env w) email w.users) (tick w)

  -- The first argument says whether registration is open.
  unfoldable pub register_if : Bool → Str → Str → Time → World → Result Error User × World
  unfolding register_unless
  register_if false email password now w = (err registration_closed, w)
  register_if true email password now w =
      register_unless (is_empty email || is_empty password) email password now w

  -- `Register`
  unfoldable pub register : Str → Str → Time → World → Result Error User × World
  unfolding register_if
  register email password now w =
      register_if (registration_enabled env) (normal_email env email) password now w

  unfoldable pub check_hash : User → Str → Option Str → Result Error User
  check_hash u password none = err invalid_credentials
  check_hash u password (some hash) =
      if env.check_password hash password then ok u else err invalid_credentials

  unfoldable pub check_user : Str → Result Types.Error User → Result Error User
  unfolding check_hash
  check_user password (ok u) = check_hash u password u.password_hash
  check_user password (err Types.not_found) = err invalid_credentials
  check_user password (err e) = err (store e)

  -- `Authenticate`
  unfoldable pub authenticate : Str → Str → World → Result Error User × World
  unfolding check_user normal_email
  authenticate email password w =
      (check_user password (user_by_email (failure env w) (normal_email env email) w.users), tick w)

  abbrev secret_user : Str → Str → User
  secret_user id hash = record {
    id = id;
    kind = str "secret";
    email = none;
    password_hash = none;
    oidc_subject = none;
    secret_hash = some hash;
    is_admin = false;
    created_at = 0;
    avatar_url = [];
  }

  abbrev with_secret : Str → Result Types.Error User → Result Error (User × Str)
  with_secret secret (ok u) = ok (u, secret)
  with_secret secret (err e) = err (store e)

  unfoldable pub insert_secret_user :
      Time → Result Str Str → Result Str Str → World → Result Error (User × Str) × World
  unfolding create_user hash_secret
  insert_secret_user now (err e) id w = (err (system e), w)
  insert_secret_user now (ok secret) (err e) w = (err (system e), w)
  insert_secret_user now (ok secret) (ok id) w =
      let (r, us) =
        create_user (failure env w) now (secret_user id (hash_secret env secret)) w.users in
      (with_secret secret r, tick (record w { users = us }))

  -- `CreateSecretUser`: the account and its secret.
  unfoldable pub create_secret_user : Time → World → Result Error (User × Str) × World
  unfolding insert_secret_user
  create_secret_user now w =
      if anonymous_allowed env
      then insert_secret_user now (env.uuid w.drawn) (env.uuid (w.drawn + 1)) (draw (draw w))
      else (err anonymous_disabled, w)
