-- ===== src/Config.antt =====
-- internal/config/config.go: the settings that `Load` reads from the environment. The environment and
-- the parsers of the standard library are parameters.
pub mod Valid
mod Tests
use tidy_dav.Prelude.{
  ℕ, ◌*◌, Str, str, Bool, true, false, not, ◌&&◌, ◌||◌, Option, none, some, List, [], ◌∷◌, ◌++◌,
  length, is_empty, eqb, list_eq, nat_eq, ◌==◌, if◌then◌else◌,
}
use tidy_dav.Prelude.Int.{ℤ, pos, leb_ℤ}
use tidy_dav.Prelude.Clock.{second}
use tidy_dav.Prelude.Result.{Result, ok, err}
use tidy_dav.Notify.{trim_slashes}
use tidy_dav.Ics.Recurrence.{split}

pub record Env : Type 0 where
  -- `os.Getenv`
  pub getenv : Str → Str
  pub to_lower : Str → Str
  pub trim_space : Str → Str
  pub fields : Str → List Str
  pub parse_bool : Str → Option Bool
  pub atoi : Str → Option ℤ
  pub parse_duration : Str → Option ℤ
  -- The scheme and the host.
  pub parse_url : Str → Option (Str × Str)

pub data Level : Type 0 where
  debug info warn error : Level

pub record OidcConfig : Type 0 where
  pub issuer_url : Str
  pub client_id : Str
  pub client_secret : Str
  pub scopes : List Str
  pub display_name : Str
  pub admin_groups : List Str
  pub user_groups : List Str
  pub group_claim : Str
  pub only : Bool
  pub post_logout_redirect_uri : Str

pub record SmtpConfig : Type 0 where
  pub host : Str
  pub port : ℤ
  pub username : Str
  pub password : Str
  pub from : Str
  pub encryption : Str

pub record Config : Type 0 where
  pub secret_key : Str
  pub base_url : Str
  pub db_path : Str
  pub listen_addr : Str
  pub log_level : Level
  pub access_mode : Str
  pub allow_registration : Bool
  pub allow_private_targets : Bool
  pub notify_interval : ℤ
  pub sync_tick : ℤ
  pub accent_color : Str
  pub background_animation : Bool
  pub oidc : OidcConfig
  pub smtp : SmtpConfig

-- The errors of `Load`, with the value that is refused.
pub data Error : Type 0 where
  bad_log_level : Str → Error
  no_secret_key no_base_url : Error
  bad_base_url bad_access_mode bad_encryption : Str → Error
  oidc_only_without_oidc : Error

unfoldable pub oidc_enabled : OidcConfig → Bool
oidc_enabled o = not (is_empty o.issuer_url) && not (is_empty o.client_id)

unfoldable pub smtp_enabled : SmtpConfig → Bool
smtp_enabled s = not (is_empty s.host)

abbrev or_value : Str → Str → Str
or_value [] def = def
or_value (c ∷ v) def = c ∷ v

abbrev pub or_parsed {ℓ} : {A : Type ℓ} → Option A → A → A
or_parsed none def = def
or_parsed (some a) def = a

-- The value of a variable that is read with a parser: the default where it is empty or refused.
abbrev pub parsed {ℓ} : {A : Type ℓ} → (Str → Option A) → Str → A → A
parsed parse [] def = def
parsed parse (c ∷ v) def = or_parsed (parse (c ∷ v)) def

abbrev pub if_positive : Option ℤ → Option ℤ
if_positive none = none
if_positive (some d) = if leb_ℤ d (pos 0) then none else some d

abbrev pub minutes : ℕ → ℤ
minutes n = pos (n * (60 * second))

module _ (env : Env) where
  unfoldable pub env_default : Str → Str → Str
  env_default key def = or_value (env.getenv key) def

  unfoldable pub env_bool : Str → Bool → Bool
  env_bool key def = parsed env.parse_bool (env.getenv key) def

  unfoldable pub env_int : Str → ℤ → ℤ
  env_int key def = parsed env.atoi (env.getenv key) def

  unfoldable pub env_duration : Str → ℤ → ℤ
  env_duration key def = parsed (λ v. if_positive (env.parse_duration v)) (env.getenv key) def

  unfoldable pub env_fields : Str → List Str → List Str
  env_fields key def =
      let v = env.trim_space (env.getenv key) in if is_empty v then def else env.fields v

  unfoldable pub trimmed_parts : List Str → List Str
  trimmed_parts [] = []
  trimmed_parts (p ∷ ps) =
      let s = env.trim_space p in
      let rest = trimmed_parts ps in if is_empty s then rest else s ∷ rest

  unfoldable pub env_comma : Str → List Str
  unfolding trimmed_parts split
  env_comma key =
      let v = env.trim_space (env.getenv key) in
      if is_empty v then [] else trimmed_parts (split b',' v)

  abbrev with_hash : Str → Str
  with_hash [] = b'#' ∷ []
  with_hash (c ∷ v) = if eqb c b'#' then c ∷ v else b'#' ∷ c ∷ v

  abbrev of_length : Str → Str
  of_length v = if eqb (length v) 4 || eqb (length v) 7 then env.to_lower v else []

  unfoldable pub env_hex_color : Str → Str
  env_hex_color key =
      let v = env.trim_space (env.getenv key) in if is_empty v then [] else of_length (with_hash v)

  unfoldable pub parse_log_level : Str → Result Error Level
  parse_log_level s =
      let l = env.to_lower s in
      if l == str "debug"
      then ok debug
      else if l == str "info"
      then ok info
      else if l == str "warn" || l == str "warning"
      then ok warn
      else if l == str "error"
      then ok error
      else err (bad_log_level s)

  abbrev pub is_absolute : Option (Str × Str) → Bool
  is_absolute none = false
  is_absolute (some (scheme, host)) = not (is_empty scheme) && not (is_empty host)

  abbrev pub is_access_mode : Str → Bool
  is_access_mode m = m == str "public" || (m == str "auth" || m == str "both")

  abbrev pub is_encryption : Str → Bool
  is_encryption e = e == str "starttls" || (e == str "tls" || e == str "none")

  -- What is wrong with a configuration, if anything is.
  unfoldable pub validate : Config → Option Error
  unfolding oidc_enabled
  validate c =
      if is_empty c.secret_key
      then some no_secret_key
      else if is_empty c.base_url
      then some no_base_url
      else if not (is_absolute (env.parse_url c.base_url))
      then some (bad_base_url c.base_url)
      else if not (is_access_mode c.access_mode)
      then some (bad_access_mode c.access_mode)
      else if not (is_encryption c.smtp.encryption)
      then some (bad_encryption c.smtp.encryption)
      else if c.oidc.only && not (oidc_enabled c.oidc)
      then some oidc_only_without_oidc
      else none

  unfoldable pub read_oidc : OidcConfig
  unfolding env_fields env_default env_comma env_bool trim_slashes
  read_oidc = record {
    issuer_url = trim_slashes (env.getenv (str "TIDYDAV_OIDC_ISSUER_URL"));
    client_id = env.getenv (str "TIDYDAV_OIDC_CLIENT_ID");
    client_secret = env.getenv (str "TIDYDAV_OIDC_CLIENT_SECRET");
    scopes =
        env_fields (str "TIDYDAV_OIDC_SCOPES") (str "openid" ∷ str "profile" ∷ str "email" ∷ []);
    display_name = env_default (str "TIDYDAV_OIDC_DISPLAY_NAME") (str "SSO");
    admin_groups = env_comma (str "TIDYDAV_OIDC_ADMIN_GROUPS");
    user_groups = env_comma (str "TIDYDAV_OIDC_USER_GROUPS");
    group_claim = env_default (str "TIDYDAV_OIDC_GROUP_CLAIM") (str "groups");
    only = env_bool (str "TIDYDAV_OIDC_ONLY") false;
    post_logout_redirect_uri =
        env.trim_space (env.getenv (str "TIDYDAV_OIDC_POST_LOGOUT_REDIRECT_URI"));
  }

  unfoldable pub read_smtp : SmtpConfig
  unfolding env_int env_default
  read_smtp = record {
    host = env.getenv (str "TIDYDAV_SMTP_HOST");
    port = env_int (str "TIDYDAV_SMTP_PORT") (pos 587);
    username = env.getenv (str "TIDYDAV_SMTP_USERNAME");
    password = env.getenv (str "TIDYDAV_SMTP_PASSWORD");
    from = env.getenv (str "TIDYDAV_SMTP_FROM");
    encryption = env.to_lower (env_default (str "TIDYDAV_SMTP_ENCRYPTION") (str "starttls"));
  }

  unfoldable pub read_config : Level → Config
  unfolding read_oidc read_smtp env_default env_bool env_duration env_hex_color trim_slashes
  read_config level = record {
    secret_key = env.getenv (str "TIDYDAV_SECRET_KEY");
    base_url = trim_slashes (env.getenv (str "TIDYDAV_BASE_URL"));
    db_path = env_default (str "TIDYDAV_DB_PATH") (str "/data/tidydav.db");
    listen_addr = env_default (str "TIDYDAV_LISTEN_ADDR") (str ":8080");
    log_level = level;
    access_mode = env.to_lower (env_default (str "TIDYDAV_ACCESS_MODE") (str "auth"));
    allow_registration = env_bool (str "TIDYDAV_ALLOW_REGISTRATION") true;
    allow_private_targets = env_bool (str "TIDYDAV_ALLOW_PRIVATE_TARGETS") true;
    notify_interval = env_duration (str "TIDYDAV_NOTIFY_INTERVAL") (minutes 15);
    sync_tick = env_duration (str "TIDYDAV_SYNC_TICK") (minutes 1);
    accent_color = env_hex_color (str "TIDYDAV_ACCENT_COLOR");
    background_animation = env_bool (str "TIDYDAV_BACKGROUND_ANIMATION") true;
    oidc = read_oidc;
    smtp = read_smtp;
  }

  abbrev pub validated : Config → Option Error → Result Error Config
  validated c none = ok c
  validated c (some e) = err e

  abbrev pub with_level : Result Error Level → Result Error Config
  with_level (err e) = err e
  with_level (ok level) = validated (read_config level) (validate (read_config level))

  -- `Load`
  unfoldable pub load : Result Error Config
  unfolding parse_log_level read_config validate
  load = with_level (parse_log_level (env_default (str "TIDYDAV_LOG_LEVEL") (str "info")))
