-- ===== src/Config/Valid.antt =====
-- internal/config/config.go: what holds of every configuration that is loaded.
use tidy_dav.Prelude.{
  ◌≡◌, refl, Str, Bool, true, false, not, ◌&&◌, Option, none, some, [], ◌∷◌, is_empty, list_eq,
  nat_eq, if◌then◌else◌, Bool-cases, inl, inr, subst,
}
use tidy_dav.Prelude.Int.{ℤ, pos, leb_ℤ}
use tidy_dav.Prelude.Result.{Result, ok, err}
use tidy_dav.Config.{
  Env, Config, Error, Level, oidc_enabled, if_positive, minutes, env_duration, is_absolute,
  is_access_mode, is_encryption, validate, read_config, validated, with_level, load, parsed,
  or_parsed,
}

-- What the program relies on.
pub record IsValid (env : Env) (c : Config) : Type 0 where
  pub has_secret_key : is_empty c.secret_key ≡ false
  pub has_base_url : is_empty c.base_url ≡ false
  pub absolute : is_absolute env (env.parse_url c.base_url) ≡ true
  pub known_mode : is_access_mode env c.access_mode ≡ true
  pub known_encryption : is_encryption env c.smtp.encryption ≡ true
  pub only_with_oidc : (c.oidc.only && not (oidc_enabled c.oidc)) ≡ false
  pub notifies : leb_ℤ c.notify_interval (pos 0) ≡ false
  pub syncs : leb_ℤ c.sync_tick (pos 0) ≡ false

if_none :
    (b : Bool) (x : Error) (rest : Option Error)
    → (if b then some x else rest) ≡ none
    → (b ≡ false) × (rest ≡ none)
if_none true x rest e = cc
if_none false x rest e = (refl, e)

of_not : (b : Bool) → not b ≡ false → b ≡ true
of_not true h = refl
of_not false h = cc

module _ (env : Env) where
  if_positive-default :
      (o : Option ℤ) (def : ℤ)
      → leb_ℤ def (pos 0) ≡ false
      → leb_ℤ (or_parsed (if_positive o) def) (pos 0) ≡ false
  if_positive-default none def h = h
  if_positive-default (some d) def h = elim (Bool-cases (leb_ℤ d (pos 0))) [
    | inl t ↦ rw t h
    | inr f ↦ rw f f
  ]

  parsed-positive :
      (v : Str) (def : ℤ)
      → leb_ℤ def (pos 0) ≡ false
      → leb_ℤ (parsed (λ s. if_positive (env.parse_duration s)) v def) (pos 0) ≡ false
  parsed-positive [] def h = h
  parsed-positive (c ∷ v) def h = if_positive-default (env.parse_duration (c ∷ v)) def h

  validate_sound :
      (c : Config)
      → validate env c ≡ none
      → leb_ℤ c.notify_interval (pos 0) ≡ false
      → leb_ℤ c.sync_tick (pos 0) ≡ false
      → IsValid env c
  unfolding validate
  validate_sound c e n s =
      let (key, e1) = if_none _ _ _ e in
      let (base, e2) = if_none _ _ _ e1 in
      let (url, e3) = if_none _ _ _ e2 in
      let (mode, e4) = if_none _ _ _ e3 in
      let (encryption, e5) = if_none _ _ _ e4 in
      let (only, e6) = if_none _ _ _ e5 in
      record {
        has_secret_key = key;
        has_base_url = base;
        absolute = of_not _ url;
        known_mode = of_not _ mode;
        known_encryption = of_not _ encryption;
        only_with_oidc = only;
        notifies = n;
        syncs = s;
      }

  read_config-notifies :
      (level : Level) → leb_ℤ (read_config env level).notify_interval (pos 0) ≡ false
  unfolding read_config env_duration
  read_config-notifies level = parsed-positive _ (minutes 15) refl

  read_config-syncs : (level : Level) → leb_ℤ (read_config env level).sync_tick (pos 0) ≡ false
  unfolding read_config env_duration
  read_config-syncs level = parsed-positive _ (minutes 1) refl

  validated_sound :
      (c d : Config) (e : Option Error) → validated env c e ≡ ok d → (e ≡ none) × (c ≡ d)
  validated_sound c d none h = (refl, cc)
  validated_sound c d (some x) h = cc

  with_level-IsValid :
      (level : Result Error Level) (c : Config) → with_level env level ≡ ok c → IsValid env c
  with_level-IsValid (err e) c h = cc
  with_level-IsValid (ok level) c h =
      let (fine, same) = validated_sound (read_config env level) c _ h in
      subst (IsValid env) same (
        validate_sound (read_config env level) fine (read_config-notifies level)
          (read_config-syncs level))

-- Every configuration that `Load` gives is valid: it has a key and an absolute base URL, a known
-- access mode and encryption of mails, asks for OIDC alone only where OIDC is configured, and both
-- intervals of the background jobs are positive, whatever the variables hold.
pub load-IsValid : (env : Env) (c : Config) → load env ≡ ok c → IsValid env c
unfolding load
load-IsValid env c h = with_level-IsValid env _ c h
