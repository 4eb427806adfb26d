-- ===== src/Auth/Register.antt =====
-- internal/auth/password.go: what a registration adds.
use tidy_dav.Prelude.{
  ◌≡◌, refl, ap, ◌∙◌, sym, Str, Bool, true, false, ◌||◌, Option, none, some, List, ◌∷◌, is_empty,
  any, list_eq, nat_eq,
}
use tidy_dav.Prelude.Result.{Result, ok, err}
use tidy_dav.Prelude.Clock.{Time}
use tidy_dav.Store.Types
use tidy_dav.Store.Users.{
  User, first, found, is_value, user_by, user_by_email, clashes, insert_unless, insert_user,
  created_row, create_user_bootstrap_admin,
}
use tidy_dav.Auth.{Env, World, normal_email, registration_enabled, tick}
use tidy_dav.Auth.Account.{
  insert_password_user, with_hash, register_free, register_unless, register_if, register,
}
use tidy_dav.Auth.Live.{map_err-ok}

insert_unless-ok :
    (b : Bool) (u v : User) (us : List User)
    → (insert_unless b u us).0 ≡ ok v
    → (v ≡ u) × ((insert_unless b u us).1 ≡ u ∷ us)
unfolding insert_unless
insert_unless-ok true u v us h = cc
insert_unless-ok false u v us h = (cc, refl)

pub insert_user-ok :
    (db : Option Str) (u v : User) (us : List User)
    → (insert_user db u us).0 ≡ ok v
    → (v ≡ u) × ((insert_user db u us).1 ≡ u ∷ us)
unfolding insert_user
insert_user-ok none u v us h = insert_unless-ok (any (clashes u) us) u v us h
insert_user-ok (some e) u v us h = cc

module _ (env : Env) where
  -- The account is new under this email, and an administrator if there was no account.
  abbrev IsNew : Str → List User → User → List User → Type 0
  IsNew email us u us' = (u.email ≡ some email) × (u.is_admin ≡ is_empty us) × (us' ≡ u ∷ us)

  insert_password_user-IsNew :
      (email hash : Str) (now : Time) (id : Result Str Str) (w : World) (u : User)
      → (insert_password_user env email hash now id w).0 ≡ ok u
      → IsNew email w.users u (insert_password_user env email hash now id w).1.users
  unfolding insert_password_user create_user_bootstrap_admin created_row
  insert_password_user-IsNew email hash now (err e) w u h = cc
  insert_password_user-IsNew email hash now (ok id) w u h =
      let (same, users) = insert_user-ok _ _ u w.users (map_err-ok _ u h) in
      (ap (λ v. v.email) same, ap (λ v. v.is_admin) same, users ∙ ap (λ v. v ∷ w.users) (sym same))

  with_hash-IsNew :
      (email : Str) (now : Time) (hash : Result Str Str) (w : World) (u : User)
      → (with_hash env email now hash w).0 ≡ ok u
      → IsNew email w.users u (with_hash env email now hash w).1.users
  unfolding with_hash
  with_hash-IsNew email now (err e) w u h = cc
  with_hash-IsNew email now (ok hash) w u h = insert_password_user-IsNew email hash now _ _ u h

  register_free-IsNew :
      (email password : Str) (now : Time) (r : Result Types.Error User) (w : World) (u : User)
      → (register_free env email password now r w).0 ≡ ok u
      → (r ≡ err Types.not_found)
        × IsNew email w.users u (register_free env email password now r w).1.users
  unfolding register_free
  register_free-IsNew email password now (ok v) w u h = cc
  register_free-IsNew email password now (err Types.not_found) w u h =
      (refl, with_hash-IsNew email now (env.hash_password password) w u h)
  register_free-IsNew email password now (err (Types.failed c e)) w u h = cc

  found-none : (o : Option User) → found o ≡ err Types.not_found → o ≡ none
  found-none none h = refl
  found-none (some u) h = cc

  user_by-none :
      (db : Option Str) (p : User → Bool) (us : List User)
      → user_by db p us ≡ err Types.not_found
      → first p us ≡ none
  unfolding user_by
  user_by-none none p us h = found-none (first p us) h
  user_by-none (some e) p us h = cc

  register_unless-IsNew :
      (b : Bool) (email password : Str) (now : Time) (w : World) (u : User)
      → (register_unless env b email password now w).0 ≡ ok u
      → (first (λ v. is_value v.email email) w.users ≡ none)
        × IsNew email w.users u (register_unless env b email password now w).1.users
  unfolding register_unless user_by_email
  register_unless-IsNew true email password now w u h = cc
  register_unless-IsNew false email password now w u h =
      let (free, new) = register_free-IsNew email password now _ (tick w) u h in
      (user_by-none _ _ w.users free, new)

  register_if-IsNew :
      (b : Bool) (email password : Str) (now : Time) (w : World) (u : User)
      → (register_if env b email password now w).0 ≡ ok u
      → (b ≡ true)
        × (first (λ v. is_value v.email email) w.users ≡ none)
        × IsNew email w.users u (register_if env b email password now w).1.users
  unfolding register_if
  register_if-IsNew false email password now w u h = cc
  register_if-IsNew true email password now w u h =
      let (free, new) =
        register_unless-IsNew (is_empty email || is_empty password) email password now w u h in
      (refl, free, new)

-- A registration that succeeds does so while registration is open and no account has the email in
-- its normal form; it adds one account with that email, which is an administrator exactly if there
-- was no account before, whichever statements fail.
pub register-IsNew :
    (env : Env) (email password : Str) (now : Time) (w : World) (u : User)
    → (register env email password now w).0 ≡ ok u
    → (registration_enabled env ≡ true)
      × (first (λ v. is_value v.email (normal_email env email)) w.users ≡ none)
      × (u.email ≡ some (normal_email env email))
      × (u.is_admin ≡ is_empty w.users)
      × ((register env email password now w).1.users ≡ u ∷ w.users)
unfolding register
register-IsNew env email password now w u h =
    let (opened, free, (mail, admin, added)) =
      register_if-IsNew env (registration_enabled env) (normal_email env email) password now w u
        h in
    (opened, free, mail, admin, added)
