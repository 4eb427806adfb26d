-- ===== src/Auth/Oidc/Rows.antt =====
-- internal/auth/oidc.go: the account that a login finds or adds.
use tidy_dav.Prelude.{
  ◌≡◌, refl, ap, ◌∙◌, sym, subst, Str, Bool, true, false, Option, none, some, List, [], ◌∷◌, Among,
  list_eq, nat_eq, ◌==◌, eq_of_==, ==_self, if◌then◌else◌, Bool-cases, inl, inr,
}
use tidy_dav.Prelude.Result.{Result, ok, err}
use tidy_dav.Prelude.Clock.{Time}
use tidy_dav.Config.{OidcConfig}
use tidy_dav.Store.Types
use tidy_dav.Store.Users.{
  User, is_value, first, user_by_oidc_subject, set_avatar_and_admin, update_user_avatar_and_admin,
  created_row, create_user,
}
use tidy_dav.Auth.{Env, World, tick, draw}
use tidy_dav.Auth.Live.{user_by-first, map_err-ok}
use tidy_dav.Auth.Register.{insert_user-ok}
use tidy_dav.Auth.Oidc.{
  refreshed, oidc_user, groups_configured, refresh_user, create_oidc_user, insert_oidc_user,
  upsert_found, upsert_oidc_user,
}

first-found :
    (p : User → Bool) (us : List User) (u : User) → first p us ≡ some u → Among u us × (p u ≡ true)
unfolding first
first-found p [] u e = cc
first-found p (v ∷ us) u e = elim (Bool-cases (p v)) [
  | inl t ↦
      let found : (if true then some v else first p us) ≡ some u = rw t at e in
      let same : v ≡ u = cc in (inl (sym same), rw (← same) t)
  | inr n ↦ let (among, holds) = first-found p us u (rw n at e) in (inr among, holds)
]

set_avatar_and_admin-Among :
    (avatar : Str) (admin : Bool) (u : User) (us : List User)
    → Among u us
    → Among
        (record u { avatar_url = avatar; is_admin = admin })
        (set_avatar_and_admin u.id avatar admin us)
unfolding set_avatar_and_admin
set_avatar_and_admin-Among avatar admin u [] h = h
set_avatar_and_admin-Among avatar admin u (v ∷ us) (inl same) =
    let here : (v.id == u.id) ≡ true = subst (λ x. (x.id == u.id) ≡ true) same (==_self u.id) in
    rw here
      (inl (ap (λ x. let y : User = record x { avatar_url = avatar; is_admin = admin } in y) same))
set_avatar_and_admin-Among avatar admin u (v ∷ us) (inr h) =
    inr (set_avatar_and_admin-Among avatar admin u us h)

-- The account has the subject and the flag, and is in the table as it is returned.
abbrev pub IsAccount : Str → Bool → User → List User → Type 0
IsAccount subject admin u us = (u.oidc_subject ≡ some subject) × (u.is_admin ≡ admin) × Among u us

module _ (env : Env) (cfg : OidcConfig) where
  updated-IsAccount :
      (db : Option Str) (subject avatar : Str) (admin : Bool) (v u : User) (us : List User)
      → Among v us
      → v.oidc_subject ≡ some subject
      → refreshed env cfg
          (update_user_avatar_and_admin db v.id avatar admin us).0
          (record v { avatar_url = avatar; is_admin = admin })
        ≡ ok u
      → IsAccount subject admin u (update_user_avatar_and_admin db v.id avatar admin us).1
  unfolding update_user_avatar_and_admin
  updated-IsAccount (some e) subject avatar admin v u us among has h = cc
  updated-IsAccount none subject avatar admin v u us among has h =
      let changed : User = record v { avatar_url = avatar; is_admin = admin } in
      let same : changed ≡ u = cc in
      subst (λ x. IsAccount subject admin x (set_avatar_and_admin v.id avatar admin us)) same
        (has, refl, set_avatar_and_admin-Among avatar admin v us among)

  refresh_user-IsAccount :
      (subject avatar : Str) (flag admin : Bool) (v u : User) (w : World)
      → flag ≡ admin
      → Among v w.users
      → v.oidc_subject ≡ some subject
      → (refresh_user env cfg flag avatar v w).0 ≡ ok u
      → IsAccount subject admin u (refresh_user env cfg flag avatar v w).1.users
  unfolding refresh_user
  refresh_user-IsAccount subject avatar flag admin v u w is among has h =
      let (subj, flagged, row) =
        updated-IsAccount (env.db w.statements) subject avatar flag v u w.users among has h in
      (subj, flagged ∙ is, row)

  create_oidc_user-IsAccount :
      (b : Bool) (subject : Str) (v u : User) (now : Time) (w : World)
      → b ≡ true
      → v.oidc_subject ≡ some subject
      → (create_oidc_user env cfg b v now w).0 ≡ ok u
      → IsAccount subject v.is_admin u (create_oidc_user env cfg b v now w).1.users
  unfolding create_oidc_user create_user created_row
  create_oidc_user-IsAccount false subject v u now w on has h = cc
  create_oidc_user-IsAccount true subject v u now w on has h =
      let (same, users) = insert_user-ok _ _ u w.users (map_err-ok _ u h) in
      (ap (λ x. x.oidc_subject) same ∙ has, ap (λ x. x.is_admin) same, rw users (inl same))

  module _ (configured : groups_configured cfg ≡ true) where
    insert_oidc_user-IsAccount :
        (subject email avatar : Str) (admin : Bool) (now : Time) (id : Result Str Str) (w : World)
        (u : User)
        → (insert_oidc_user env cfg subject email avatar admin now id w).0 ≡ ok u
        → IsAccount subject admin u
            (insert_oidc_user env cfg subject email avatar admin now id w).1.users
    unfolding insert_oidc_user
    insert_oidc_user-IsAccount subject email avatar admin now (err e) w u h = cc
    insert_oidc_user-IsAccount subject email avatar admin now (ok id) w u h =
        create_oidc_user-IsAccount (groups_configured cfg) subject
          (oidc_user env cfg id subject email avatar admin) u now w configured refl h

    upsert_found-IsAccount :
        (subject email avatar : Str) (admin : Bool) (now : Time) (r : Result Types.Error User)
        (w : World) (u : User)
        → ((v : User) → r ≡ ok v → Among v w.users × (v.oidc_subject ≡ some subject))
        → (upsert_found env cfg subject email avatar admin now r w).0 ≡ ok u
        → IsAccount subject admin u
            (upsert_found env cfg subject email avatar admin now r w).1.users
    unfolding upsert_found
    upsert_found-IsAccount subject email avatar admin now (ok v) w u found h =
        let (among, has) = found v refl in
        refresh_user-IsAccount subject avatar _ admin v u w (rw configured refl) among has h
    upsert_found-IsAccount subject email avatar admin now (err Types.not_found) w u found h =
        insert_oidc_user-IsAccount subject email avatar admin now (env.uuid w.drawn) (draw w) u h
    upsert_found-IsAccount subject email avatar admin now (err (Types.failed c e)) w u found h = cc

    value-some : (o : Option Str) (s : Str) → is_value o s ≡ true → o ≡ some s
    value-some none s h = cc
    value-some (some a) s h = ap some (eq_of_== a s h)

    pub upsert_oidc_user-IsAccount :
        (subject email avatar : Str) (admin : Bool) (now : Time) (w : World) (u : User)
        → (upsert_oidc_user env cfg subject email avatar admin now w).0 ≡ ok u
        → IsAccount subject admin u
            (upsert_oidc_user env cfg subject email avatar admin now w).1.users
    unfolding upsert_oidc_user user_by_oidc_subject
    upsert_oidc_user-IsAccount subject email avatar admin now w u h =
        upsert_found-IsAccount subject email avatar admin now _ (tick w) u
          (λ v e.
            let (among, is) = first-found _ w.users v (user_by-first _ _ w.users v e) in
            (among, value-some v.oidc_subject subject is))
          h
