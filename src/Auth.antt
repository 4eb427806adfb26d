-- ===== src/Auth.antt =====
-- internal/auth: sessions, email and password accounts, anonymous accounts and password resets.
-- Random numbers, bcrypt, SHA-256, the mailer and the case folding and trimming of strings are
-- parameters; the database may fail at any statement, and the environment says at which.
pub mod Login
pub mod Account
pub mod Recovery
pub mod Live
pub mod Reset
pub mod Register
pub mod Oidc
mod Tests
use tidy_dav.Prelude.{
  ℕ, ◌+◌, ◌*◌, ◌≡◌, Str, str, Bool, true, false, not, ◌&&◌, ◌||◌, Option, none, some, List, [], ◌∷◌,
  ◌++◌, is_empty, ltb, if◌then◌else◌,
}
use tidy_dav.Prelude.Dict.{Dict}
use tidy_dav.Prelude.Result.{Result, ok, err, map_err}
use tidy_dav.Prelude.Clock.{Time, second}
use tidy_dav.Dav.Href.{hex_encode}
use tidy_dav.Store.Types
use tidy_dav.Store.Users.{
  User, user_by_id, user_by_email, create_user, create_user_bootstrap_admin, update_user_password,
}
use tidy_dav.Store.Sessions.{
  Session, PasswordReset, create_session, session_by_id, delete_session, create_password_reset,
  password_reset_by_token_hash, delete_password_reset,
}

pub data Error : Type 0 where
  invalid_credentials registration_closed email_taken anonymous_disabled invalid_reset_token : Error
  store : Types.Error → Error
  system : Str → Error

-- `config.AccessMode`
pub data AccessMode : Type 0 where
  private public both : AccessMode

pub record Config : Type 0 where
  pub oidc_only : Bool
  pub allow_registration : Bool
  pub access_mode : AccessMode
  pub base_url : Str

-- The tables, the mails handed to the mailer, and the numbers of statements and of random values.
pub record World : Type 0 where
  pub users : List User
  pub sessions : Dict Str Session
  pub resets : Dict Str PasswordReset
  pub mails : List (Str × Str)
  pub statements : ℕ
  pub drawn : ℕ

pub record Env : Type 0 where
  pub cfg : Config
  pub db : ℕ → Option Str
  pub token : ℕ → Result Str Str
  pub uuid : ℕ → Result Str Str
  pub hash_password : Str → Result Str Str
  pub check_password : Str → Str → Bool
  pub sha256 : Str → Str
  pub to_lower : Str → Str
  pub trim_space : Str → Str
  pub mail : Str → Str → Option Str

abbrev is_public : AccessMode → Bool
is_public public = true
is_public _ = false

abbrev allows_anonymous : AccessMode → Bool
allows_anonymous private = false
allows_anonymous _ = true

-- `sessionTTL` and `resetTTL`
abbrev pub session_ttl : ℕ
session_ttl = 30 * 24 * 3600 * second

abbrev pub reset_ttl : ℕ
reset_ttl = 3600 * second

-- One statement has run.
abbrev pub tick : World → World
tick w = record w { statements = w.statements + 1 }

abbrev pub draw : World → World
draw w = record w { drawn = w.drawn + 1 }

module _ (env : Env) where
  unfoldable pub registration_enabled : Bool
  registration_enabled =
      if env.cfg.oidc_only
      then false
      else env.cfg.allow_registration && not (is_public env.cfg.access_mode)

  unfoldable pub anonymous_allowed : Bool
  anonymous_allowed = allows_anonymous env.cfg.access_mode

  unfoldable pub normal_email : Str → Str
  normal_email email = env.trim_space (env.to_lower email)

  unfoldable pub hash_secret : Str → Str
  unfolding hex_encode
  hash_secret secret = hex_encode (env.sha256 secret)

  abbrev pub failure : World → Option Str
  failure w = env.db w.statements
