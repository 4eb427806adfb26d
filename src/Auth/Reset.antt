-- ===== src/Auth/Reset.antt =====
-- internal/auth/reset.go: what a confirmed password reset changes.
use tidy_dav.Prelude.{
  ◌+◌, ◌≡◌, ◌≢◌, ◌⊎◌, ◌==◌, inl, inr, ◌∷◌, [], sym, Bool-cases, eq_of_==, ==_self, refl, ◌∙◌, subst,
  Str, Bool, true, false, Option, none, some, List, ltb, is_empty, list_eq, nat_eq,
}
use tidy_dav.Prelude.Dict
use tidy_dav.Prelude.Result.{Result, ok, err}
use tidy_dav.Prelude.Clock.{Time}
use tidy_dav.Store.Types
use tidy_dav.Store.Users.{User, set_password, update_user_password}
use tidy_dav.Store.Sessions.{
  PasswordReset, select, password_reset_by_token_hash, delete_password_reset,
}
use tidy_dav.Auth.{Env, World, invalid_reset_token, hash_secret, tick}
use tidy_dav.Auth.Recovery.{
  after_update, set_hash, by_age, with_reset, confirm_unless, confirm_password_reset,
}
use tidy_dav.Auth.Live.{Runs, select-row, lookup-erase_self}

module _ (env : Env) where
  update-ok :
      (db : Option Str) (id hash : Str) (us : List User)
      → (update_user_password db id hash us).0 ≡ ok tt
      → (update_user_password db id hash us).1 ≡ set_password id hash us
  unfolding update_user_password
  update-ok none id hash us h = refl
  update-ok (some e) id hash us h = cc

  after_update-users :
      (hash : Str) (r : Result Types.Error (Unit {0})) (us : List User) (w : World)
      → (after_update env hash (r, us) w).1.users ≡ us
  unfolding after_update
  after_update-users hash (ok tt) us w = refl
  after_update-users hash (err e) us w = refl

  after_update-ok :
      (hash : Str) (r : Result Types.Error (Unit {0})) (us : List User) (w : World)
      → (after_update env hash (r, us) w).0 ≡ ok tt
      → r ≡ ok tt
  unfolding after_update
  after_update-ok hash (ok tt) us w h = refl
  after_update-ok hash (err e) us w h = cc

  set_hash-ok :
      (r : PasswordReset) (h : Result Str Str) (w : World)
      → (set_hash env r h w).0 ≡ ok tt
      → (hash : Str) × (h ≡ ok hash)
        × ((set_hash env r h w).1.users ≡ set_password r.user_id hash w.users)
  unfolding set_hash
  set_hash-ok r (err e) w done = cc
  set_hash-ok r (ok hash) w done = (
    hash,
    refl,
    after_update-users r.token_hash _ _ w
        ∙ update-ok _ r.user_id hash w.users (after_update-ok r.token_hash _ _ w done),
  )

  by_age-ok :
      (b : Bool) (r : PasswordReset) (password : Str) (w : World)
      → (by_age env b r password w).0 ≡ ok tt
      → (b ≡ false)
        × (hash : Str) × (env.hash_password password ≡ ok hash)
        × ((by_age env b r password w).1.users ≡ set_password r.user_id hash w.users)
  unfolding by_age
  by_age-ok true r password w done = cc
  by_age-ok false r password w done =
      let (hash, is, users) = set_hash-ok r (env.hash_password password) w done in
      (refl, hash, is, users)

  with_reset-ok :
      (password : Str) (now : Time) (found : Result Types.Error PasswordReset) (w : World)
      → (with_reset env password now found w).0 ≡ ok tt
      → (r : PasswordReset) × (found ≡ ok r)
        × (ltb r.expires_at now ≡ false)
        × (hash : Str) × (env.hash_password password ≡ ok hash)
        × ((with_reset env password now found w).1.users ≡ set_password r.user_id hash w.users)
  unfolding with_reset
  with_reset-ok password now (err Types.not_found) w done = cc
  with_reset-ok password now (err (Types.failed c e)) w done = cc
  with_reset-ok password now (ok r) w done =
      let (live, hash, is, users) = by_age-ok (ltb r.expires_at now) r password w done in
      (r, refl, live, hash, is, users)

  confirm_unless-ok :
      (b : Bool) (token password : Str) (now : Time) (w : World)
      → (confirm_unless env b token password now w).0 ≡ ok tt
      → (r : PasswordReset) × (hash : Str) × (Dict.lookup (hash_secret env token) w.resets ≡ some r)
        × (ltb r.expires_at now ≡ false)
        × (env.hash_password password ≡ ok hash)
        × ((confirm_unless env b token password now w).1.users
            ≡ set_password r.user_id hash w.users)
  unfolding confirm_unless password_reset_by_token_hash
  confirm_unless-ok true token password now w done = cc
  confirm_unless-ok false token password now w done =
      let (r, found, live, hash, is, users) = with_reset-ok password now _ (tick w) done in
      (r, hash, select-row _ _ (hash_secret env token) w.resets r found, live, is, users)

-- What a reset makes of the table of the accounts: each one with the id has the password hash and
-- all its other columns of before, and the others are as they were.
abbrev pub IsReset : Str → Str → List User → List User → Type 0
IsReset id hash [] [] = Unit
IsReset id hash (u ∷ us) (v ∷ vs) =
    (((u.id ≡ id) × (v ≡ record u { password_hash = some hash })) ⊎ ((u.id ≢ id) × (v ≡ u)))
    × IsReset id hash us vs
IsReset id hash us vs = ⊥

ne_of_== : (a b : Str) → (a == b) ≡ false → a ≢ b
ne_of_== a b f e = let t : (a == b) ≡ true = subst (λ x. (a == x) ≡ true) e (==_self a) in cc

set_password-IsReset :
    (id hash : Str) (us : List User) → IsReset id hash us (set_password id hash us)
unfolding set_password
set_password-IsReset id hash [] = tt
set_password-IsReset id hash (u ∷ us) = elim (Bool-cases (u.id == id)) [
  | inl t ↦ rw t (inl (eq_of_== u.id id t, refl), set_password-IsReset id hash us)
  | inr f ↦ rw f (inr (ne_of_== u.id id f, refl), set_password-IsReset id hash us)
]

-- A reset that is confirmed without an error was asked for with a token in the table that has not
-- expired, and of the accounts it has set the password hash of the token's user only.
pub confirm_password_reset-ok :
    (env : Env) (token password : Str) (now : Time) (w : World)
    → (confirm_password_reset env token password now w).0 ≡ ok tt
    → (r : PasswordReset) × (hash : Str) × (Dict.lookup (hash_secret env token) w.resets ≡ some r)
      × (ltb r.expires_at now ≡ false)
      × (env.hash_password password ≡ ok hash)
      × IsReset r.user_id hash w.users (confirm_password_reset env token password now w).1.users
unfolding confirm_password_reset
confirm_password_reset-ok env token password now w done =
    let (r, hash, found, live, is, users) =
      confirm_unless-ok env (is_empty (env.trim_space password)) token password now w done in
    (
      r,
      hash,
      found,
      live,
      is,
      subst (IsReset r.user_id hash w.users) (sym users)
          (set_password-IsReset r.user_id hash w.users),
    )

module _ (env : Env) (runs : Runs env) where
  after_update-used :
      (hash : Str) (r : Result Types.Error (Unit {0})) (us : List User) (w : World)
      → (after_update env hash (r, us) w).0 ≡ ok tt
      → Dict.lookup hash (after_update env hash (r, us) w).1.resets ≡ none
  unfolding after_update delete_password_reset
  after_update-used hash (ok tt) us w h =
      rw (runs (w.statements + 1)) (lookup-erase_self hash w.resets)
  after_update-used hash (err e) us w h = cc

  set_hash-used :
      (r : PasswordReset) (h : Result Str Str) (w : World)
      → (set_hash env r h w).0 ≡ ok tt
      → Dict.lookup r.token_hash (set_hash env r h w).1.resets ≡ none
  unfolding set_hash
  set_hash-used r (err e) w done = cc
  set_hash-used r (ok hash) w done = after_update-used r.token_hash _ _ w done

  by_age-used :
      (b : Bool) (r : PasswordReset) (password : Str) (w : World)
      → (by_age env b r password w).0 ≡ ok tt
      → Dict.lookup r.token_hash (by_age env b r password w).1.resets ≡ none
  unfolding by_age
  by_age-used true r password w done = cc
  by_age-used false r password w done = set_hash-used r (env.hash_password password) w done

  with_reset-used :
      (key password : Str) (now : Time) (found : Result Types.Error PasswordReset) (w : World)
      → ((r : PasswordReset) → found ≡ ok r → r.token_hash ≡ key)
      → (with_reset env password now found w).0 ≡ ok tt
      → Dict.lookup key (with_reset env password now found w).1.resets ≡ none
  unfolding with_reset
  with_reset-used key password now (err Types.not_found) w own done = cc
  with_reset-used key password now (err (Types.failed c e)) w own done = cc
  with_reset-used key password now (ok r) w own done =
      subst (λ k. Dict.lookup k (by_age env (ltb r.expires_at now) r password w).1.resets ≡ none)
        (own r refl) (by_age-used (ltb r.expires_at now) r password w done)

  confirm_unless-used :
      (b : Bool) (token password : Str) (now : Time) (w : World)
      → ((r : PasswordReset)
          → Dict.lookup (hash_secret env token) w.resets ≡ some r
          → r.token_hash ≡ hash_secret env token)
      → (confirm_unless env b token password now w).0 ≡ ok tt
      → Dict.lookup (hash_secret env token) (confirm_unless env b token password now w).1.resets
        ≡ none
  unfolding confirm_unless password_reset_by_token_hash
  confirm_unless-used true token password now w own done = cc
  confirm_unless-used false token password now w own done =
      with_reset-used (hash_secret env token) password now _ (tick w)
        (λ r found. own r (select-row _ _ (hash_secret env token) w.resets r found)) done

  confirm_unless-gone :
      (token password : Str) (now : Time) (w : World)
      → Dict.lookup (hash_secret env token) w.resets ≡ none
      → (confirm_unless env false token password now w).0 ≡ err invalid_reset_token
  unfolding confirm_unless password_reset_by_token_hash select with_reset
  confirm_unless-gone token password now w gone = rw (runs w.statements, gone) refl

-- Where no statement fails, a token resets a password once: after a reset with it has been
-- confirmed, another one, with a password that is not blank, is refused as invalid, if each row
-- of the table stands under its own token hash.
pub confirm_password_reset-once :
    (env : Env) (token password again : Str) (now later : Time) (w : World)
    → Runs env
    → ((r : PasswordReset)
        → Dict.lookup (hash_secret env token) w.resets ≡ some r
        → r.token_hash ≡ hash_secret env token)
    → (confirm_password_reset env token password now w).0 ≡ ok tt
    → is_empty (env.trim_space again) ≡ false
    → (confirm_password_reset env token again later
        (confirm_password_reset env token password now w).1).0
      ≡ err invalid_reset_token
unfolding confirm_password_reset
confirm_password_reset-once env token password again now later w runs own done filled = rw filled (
    confirm_unless-gone env runs token again later _
      (confirm_unless-used env runs _ token password now w own done))
