-- ===== src/Auth/Oidc.antt =====
-- internal/auth/oidc.go: the account of a login with OpenID Connect. The provider's answers are a
-- parameter.
pub mod Rows
pub mod Groups
mod Tests
use tidy_dav.Prelude.{
  ◌+◌, Str, str, Bool, true, false, not, ◌&&◌, ◌||◌, Option, none, some, List, [], ◌∷◌, is_empty,
  contains, list_eq, nat_eq, ◌==◌, if◌then◌else◌,
}
use tidy_dav.Prelude.Dict
use tidy_dav.Prelude.Dict.{Dict}
use tidy_dav.Prelude.Result.{Result, ok, err, map_err}
use tidy_dav.Prelude.Clock.{Time}
use tidy_dav.Config.{OidcConfig}
use tidy_dav.Store.Types
use tidy_dav.Store.Users.{
  User, user_by_oidc_subject, update_user_avatar_and_admin, create_user,
  create_user_bootstrap_admin,
}
use tidy_dav.Auth
use tidy_dav.Auth.{store, system, World, Env, failure, tick, draw}

-- A claim of an ID token: a text, a list, whose items are texts or not, or something else.
pub data Claim : Type 0 where
  text : Str → Claim
  items : List (Option Str) → Claim
  other : Claim

pub record Token : Type 0 where
  pub subject : Str
  pub claims : Result Str (Dict Str Claim)

-- The provider: the raw ID token, if there is one, for a code and its verifier, and its check.
pub record Provider : Type 0 where
  pub exchange : Str → Str → Result Str (Option Str)
  pub verify : Str → Result Str Token

pub data Error : Type 0 where
  not_configured no_id_token group_not_allowed : Error
  -- What failed at the provider, and why.
  provider : Str → Str → Error
  account : Auth.Error → Error

unfoldable pub has_group_overlap : List Str → List Str → Bool
has_group_overlap groups [] = false
has_group_overlap groups (r ∷ required) =
    if contains groups r then true else has_group_overlap groups required

-- `groupsCheck`: whether the user is an administrator, and whether they are let in.
unfoldable pub groups_check : OidcConfig → List Str → Bool × Bool
unfolding has_group_overlap
groups_check cfg groups =
    if is_empty cfg.admin_groups && is_empty cfg.user_groups
    then (false, true)
    else if has_group_overlap groups cfg.admin_groups
    then (true, true)
    else if not (is_empty cfg.user_groups)
    then (false, has_group_overlap groups cfg.user_groups)
    else (false, true)

unfoldable pub groups_configured : OidcConfig → Bool
groups_configured cfg = not (is_empty cfg.admin_groups) || not (is_empty cfg.user_groups)

abbrev texts : List (Option Str) → List Str
texts [] = []
texts (none ∷ gs) = texts gs
texts (some g ∷ gs) = g ∷ texts gs

unfoldable pub groups_of : Option Claim → List Str
groups_of (some (items gs)) = texts gs
groups_of _ = []

unfoldable pub text_of : Option Claim → Str
text_of (some (text s)) = s
text_of _ = []

abbrev pub claim_name : Str → Str
claim_name [] = str "groups"
claim_name (c ∷ name) = c ∷ name

-- The groups of a login.
unfoldable pub groups_in : OidcConfig → Dict Str Claim → List Str
unfolding groups_of
groups_in cfg claims = groups_of (Dict.lookup (claim_name cfg.group_claim) claims)

module _ (env : Env) (cfg : OidcConfig) where
  abbrev pub Reply : Type 0
  Reply = Result Auth.Error User × World

  abbrev pub refreshed : Result Types.Error (Unit {0}) → User → Result Auth.Error User
  refreshed (err e) u = err (store e)
  refreshed (ok _) u = ok u

  -- The first argument is the administrator flag that the account is to have.
  unfoldable pub refresh_user : Bool → Str → User → World → Reply
  unfolding update_user_avatar_and_admin
  refresh_user admin avatar u w =
      let (r, us) = update_user_avatar_and_admin (failure env w) u.id avatar admin w.users in
      (
        refreshed r (record u { avatar_url = avatar; is_admin = admin }),
        tick (record w { users = us }),
      )

  abbrev email_or_null : Str → Option Str
  email_or_null [] = none
  email_or_null (c ∷ email) = some (env.to_lower (c ∷ email))

  abbrev pub oidc_user : Str → Str → Str → Str → Bool → User
  oidc_user id subject email avatar admin = record {
    id = id;
    kind = str "oidc";
    email = email_or_null email;
    password_hash = none;
    oidc_subject = some subject;
    secret_hash = none;
    is_admin = admin;
    created_at = 0;
    avatar_url = avatar;
  }

  -- The first argument says whether groups are configured: the very first account is an
  -- administrator only where they are not.
  unfoldable pub create_oidc_user : Bool → User → Time → World → Reply
  unfolding create_user create_user_bootstrap_admin
  create_oidc_user true u now w =
      let (r, us) = create_user (failure env w) now u w.users in
      (map_err store r, tick (record w { users = us }))
  create_oidc_user false u now w =
      let (r, us) = create_user_bootstrap_admin (failure env w) now u w.users in
      (map_err store r, tick (record w { users = us }))

  unfoldable pub insert_oidc_user : Str → Str → Str → Bool → Time → Result Str Str → World → Reply
  unfolding create_oidc_user
  insert_oidc_user subject email avatar admin now (err e) w = (err (system e), w)
  insert_oidc_user subject email avatar admin now (ok id) w =
      create_oidc_user (groups_configured cfg) (oidc_user id subject email avatar admin) now w

  unfoldable pub upsert_found :
      Str → Str → Str → Bool → Time → Result Types.Error User → World → Reply
  unfolding refresh_user insert_oidc_user groups_configured
  upsert_found subject email avatar admin now (ok u) w =
      refresh_user (if groups_configured cfg then admin else u.is_admin) avatar u w
  upsert_found subject email avatar admin now (err Types.not_found) w =
      insert_oidc_user subject email avatar admin now (env.uuid w.drawn) (draw w)
  upsert_found subject email avatar admin now (err e) w = (err (store e), w)

  -- `upsertOIDCUser`
  unfoldable pub upsert_oidc_user : Str → Str → Str → Bool → Time → World → Reply
  unfolding upsert_found user_by_oidc_subject
  upsert_oidc_user subject email avatar admin now w =
      upsert_found subject email avatar admin now
        (user_by_oidc_subject (failure env w) subject w.users) (tick w)

  -- The first argument is what the groups say.
  unfoldable pub if_in_groups :
      Bool × Bool → Str → Dict Str Claim → Time → World → Result Error User × World
  unfolding upsert_oidc_user text_of
  if_in_groups (admin, false) subject claims now w = (err group_not_allowed, w)
  if_in_groups (admin, true) subject claims now w =
      let (r, w') =
        upsert_oidc_user subject (text_of (Dict.lookup (str "email") claims))
          (text_of (Dict.lookup (str "picture") claims)) admin now w in
      (map_err account r, w')

  unfoldable pub with_claims :
      Str → Result Str (Dict Str Claim) → Time → World → Result Error User × World
  unfolding if_in_groups groups_check groups_in
  with_claims subject (err e) now w = (err (provider (str "parse id token claims") e), w)
  with_claims subject (ok claims) now w =
      if_in_groups (groups_check cfg (groups_in cfg claims)) subject claims now w

  unfoldable pub with_token : Result Str Token → Time → World → Result Error User × World
  unfolding with_claims
  with_token (err e) now w = (err (provider (str "verify id token") e), w)
  with_token (ok token) now w = with_claims token.subject token.claims now w

  unfoldable pub with_raw :
      Provider → Result Str (Option Str) → Time → World → Result Error User × World
  unfolding with_token
  with_raw p (err e) now w = (err (provider (str "oidc exchange") e), w)
  with_raw p (ok none) now w = (err no_id_token, w)
  with_raw p (ok (some raw)) now w = with_token (p.verify raw) now w

  -- `OIDCExchange`
  unfoldable pub oidc_exchange :
      Option Provider → Str → Str → Time → World → Result Error User × World
  unfolding with_raw
  oidc_exchange none code verifier now w = (err not_configured, w)
  oidc_exchange (some p) code verifier now w = with_raw p (p.exchange code verifier) now w
