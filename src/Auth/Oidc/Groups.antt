-- ===== src/Auth/Oidc/Groups.antt =====
-- internal/auth/oidc.go: who is let in, and as what, where groups are configured.
use tidy_dav.Prelude.{
  ◌≡◌, refl, ◌∙◌, Str, str, Bool, true, false, not, ◌&&◌, ◌||◌, Option, none, some, List, is_empty,
  Among, list_eq, nat_eq, if◌then◌else◌,
}
use tidy_dav.Prelude.Dict
use tidy_dav.Prelude.Dict.{Dict}
use tidy_dav.Prelude.Result.{Result, ok, err, map_err}
use tidy_dav.Prelude.Clock.{Time}
use tidy_dav.Config.{OidcConfig}
use tidy_dav.Store.Users.{User}
use tidy_dav.Auth
use tidy_dav.Auth.{Env, World, store, tick, draw}
use tidy_dav.Auth.Oidc.{
  Claim, Token, Provider, account, has_group_overlap, groups_check, groups_configured, groups_in,
  text_of, if_in_groups, with_claims, with_token, with_raw, oidc_exchange,
}
use tidy_dav.Auth.Oidc.Rows.{upsert_oidc_user-IsAccount}

module _ (cfg : OidcConfig) where
  -- The groups let the user in, and say that they are an administrator.
  abbrev pub IsAllowed : List Str → Bool → Type 0
  IsAllowed groups admin =
      (admin ≡ has_group_overlap groups cfg.admin_groups)
      × ((has_group_overlap groups cfg.admin_groups
            || (is_empty cfg.user_groups || has_group_overlap groups cfg.user_groups))
          ≡ true)

  -- The account of a login: its subject, its flag by the groups of the token's claims, and its row.
  abbrev pub IsLogin : Token → User → List User → Type 0
  IsLogin token u us =
      (claims : Dict Str Claim) × (token.claims ≡ ok claims)
      × IsAllowed (groups_in cfg claims) u.is_admin
      × (u.oidc_subject ≡ some token.subject)
      × Among u us

module _ (env : Env) (cfg : OidcConfig) (configured : groups_configured cfg ≡ true) where
  -- The four tests of `groupsCheck`.
  checked-IsAllowed :
      (no_admin no_user in_admin in_user : Bool)
      → (not no_admin || not no_user) ≡ true
      → let check : Bool × Bool =
          if no_admin && no_user
          then (false, true)
          else if in_admin
          then (true, true)
          else if not no_user
          then (false, in_user)
          else (false, true) in
        check.1 ≡ true → (check.0 ≡ in_admin) × ((in_admin || (no_user || in_user)) ≡ true)
  checked-IsAllowed true true in_admin in_user c h = cc
  checked-IsAllowed false no_user true in_user c h = (refl, refl)
  checked-IsAllowed false true false in_user c h = (refl, refl)
  checked-IsAllowed false false false in_user c h = (refl, h)
  checked-IsAllowed true false true in_user c h = (refl, refl)
  checked-IsAllowed true false false in_user c h = (refl, h)

  groups_check-IsAllowed :
      (groups : List Str)
      → (groups_check cfg groups).1 ≡ true
      → IsAllowed cfg groups (groups_check cfg groups).0
  unfolding groups_check groups_configured
  groups_check-IsAllowed groups h =
      checked-IsAllowed (is_empty cfg.admin_groups) (is_empty cfg.user_groups)
        (has_group_overlap groups cfg.admin_groups) (has_group_overlap groups cfg.user_groups)
        configured h

  account-ok : (r : Result Auth.Error User) (u : User) → map_err account r ≡ ok u → r ≡ ok u
  account-ok (ok v) u h = cc
  account-ok (err e) u h = cc

  if_in_groups-IsAllowed :
      (check : Bool × Bool) (subject : Str) (groups : List Str) (claims : Dict Str Claim)
      (now : Time) (w : World) (u : User)
      → (check.1 ≡ true → IsAllowed cfg groups check.0)
      → (if_in_groups env cfg check subject claims now w).0 ≡ ok u
      → IsAllowed cfg groups u.is_admin
        × (u.oidc_subject ≡ some subject)
        × Among u (if_in_groups env cfg check subject claims now w).1.users
  unfolding if_in_groups
  if_in_groups-IsAllowed (admin, false) subject groups claims now w u allowed h = cc
  if_in_groups-IsAllowed (admin, true) subject groups claims now w u allowed h =
      let (has, is, row) =
        upsert_oidc_user-IsAccount env cfg configured subject
          (text_of (Dict.lookup (str "email") claims))
          (text_of (Dict.lookup (str "picture") claims)) admin now w u (account-ok _ u h) in
      let (flag, may) = allowed refl in ((is ∙ flag, may), has, row)

  with_claims-IsLogin :
      (token : Token) (c : Result Str (Dict Str Claim)) (now : Time) (w : World) (u : User)
      → token.claims ≡ c
      → (with_claims env cfg token.subject c now w).0 ≡ ok u
      → IsLogin cfg token u (with_claims env cfg token.subject c now w).1.users
  unfolding with_claims
  with_claims-IsLogin token (err e) now w u same h = cc
  with_claims-IsLogin token (ok claims) now w u same h =
      let groups = groups_in cfg claims in
      let (allowed, has, row) =
        if_in_groups-IsAllowed (groups_check cfg groups) token.subject groups claims now w u
          (groups_check-IsAllowed groups) h in
      (claims, same, allowed, has, row)

  with_token-IsLogin :
      (t : Result Str Token) (now : Time) (w : World) (u : User)
      → (with_token env cfg t now w).0 ≡ ok u
      → (token : Token) × (t ≡ ok token) × IsLogin cfg token u (with_token env cfg t now w).1.users
  unfolding with_token
  with_token-IsLogin (err e) now w u h = cc
  with_token-IsLogin (ok token) now w u h =
      (token, refl, with_claims-IsLogin token token.claims now w u refl h)

  with_raw-IsLogin :
      (p : Provider) (r : Result Str (Option Str)) (now : Time) (w : World) (u : User)
      → (with_raw env cfg p r now w).0 ≡ ok u
      → (raw : Str) × (token : Token) × (r ≡ ok (some raw))
        × (p.verify raw ≡ ok token)
        × IsLogin cfg token u (with_raw env cfg p r now w).1.users
  unfolding with_raw
  with_raw-IsLogin p (err e) now w u h = cc
  with_raw-IsLogin p (ok none) now w u h = cc
  with_raw-IsLogin p (ok (some raw)) now w u h =
      let (token, verified, login) = with_token-IsLogin (p.verify raw) now w u h in
      (raw, token, refl, verified, login)

-- Where groups are configured, a login with OpenID Connect that succeeds has the ID token that the
-- provider gave for the code and that it has verified; one of its groups is among those of
-- the administrators, or among those of the users, or no groups of users are set; the account that it gives is in the
-- table, has the subject of the token, and is an administrator exactly if its groups say so,
-- whatever it was before and whichever statements fail.
pub oidc_exchange-IsLogin :
    (env : Env) (cfg : OidcConfig) (p : Provider) (code verifier : Str) (now : Time) (w : World)
    (u : User) (configured : groups_configured cfg ≡ true)
    → (oidc_exchange env cfg (some p) code verifier now w).0 ≡ ok u
    → (raw : Str) × (token : Token) × (p.exchange code verifier ≡ ok (some raw))
      × (p.verify raw ≡ ok token)
      × IsLogin cfg token u (oidc_exchange env cfg (some p) code verifier now w).1.users
unfolding oidc_exchange
oidc_exchange-IsLogin env cfg p code verifier now w u configured h =
    with_raw-IsLogin env cfg configured p (p.exchange code verifier) now w u h
