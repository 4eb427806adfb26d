-- ===== src/Auth/Tests.antt =====
-- internal/auth: one account, its session and a reset of its password.
use tidy_dav.Prelude.{
  ◌+◌, ◌≡◌, refl, Str, str, true, false, none, some, [], ◌∷◌, ltb, list_eq, nat_eq, ◌==◌,
}
use tidy_dav.Prelude.Dict
use tidy_dav.Prelude.Result.{ok, err}
use tidy_dav.Prelude.Clock.{second}
use tidy_dav.Store.Users.{User, first, is_value, user_by, user_by_id, user_by_email, insert_user}
use tidy_dav.Store.Sessions.{Session, PasswordReset, session_by_id, password_reset_by_token_hash}
use tidy_dav.Auth.{
  Env, World, invalid_reset_token, private, session_ttl, registration_enabled, normal_email,
  hash_secret,
}
use tidy_dav.Auth.Login.{start_session, user_from_request}
use tidy_dav.Auth.Account.{register}
use tidy_dav.Auth.Recovery.{confirm_password_reset}
use tidy_dav.Auth.Live.{Runs, user_from_request-IsOf, user_from_request-start_session}
use tidy_dav.Auth.Reset.{IsReset, confirm_password_reset-ok, confirm_password_reset-once}
use tidy_dav.Auth.Register.{register-IsNew}

abbrev env : Env
env = record {
  cfg = record {
    oidc_only = false;
    allow_registration = true;
    access_mode = private;
    base_url = str "http://d";
  };
  db = λ k. none;
  token = λ k. ok (str "t");
  uuid = λ k. ok (str "id");
  hash_password = λ p. ok p;
  check_password = λ h p. h == p;
  sha256 = λ s. [];
  to_lower = λ s. s;
  trim_space = λ s. s;
  mail = λ to link. none;
}

env-Runs : Runs env
env-Runs k = refl

abbrev empty : World
empty = record { users = []; sessions = []; resets = []; mails = []; statements = 0; drawn = 0 }

abbrev ann : User
ann = record {
  id = str "id";
  kind = str "password";
  email = some (str "a");
  password_hash = some (str "p");
  oidc_subject = none;
  secret_hash = none;
  is_admin = true;
  created_at = second;
  avatar_url = [];
}

registered : (register env (str "a") (str "p") second empty).0 ≡ ok ann
unfolding register registration_enabled normal_email first user_by_email user_by insert_user
registered = refl

register-IsNew_example :
    (registration_enabled env ≡ true)
    × (first (λ v. is_value v.email (normal_email env (str "a"))) [] ≡ none)
    × (some (str "a") ≡ some (normal_email env (str "a")))
    × (true ≡ true)
    × ((register env (str "a") (str "p") second empty).1.users ≡ ann ∷ [])
register-IsNew_example = register-IsNew env (str "a") (str "p") second empty ann registered

abbrev home : World
home = record empty { users = ann ∷ [] }

started : (start_session env ann second home).0 ≡ ok (str "t", second + session_ttl)
unfolding start_session Dict.lookup
started = refl

user_from_request-start_session_example :
    (user_from_request env (some (str "t")) 9 (start_session env ann second home).1).0 ≡ ok ann
unfolding first list_eq nat_eq
user_from_request-start_session_example =
    user_from_request-start_session env ann second 9 home (str "t") (second + session_ttl) env-Runs
      started refl refl

abbrev session : Session
session = record { id = str "t"; user_id = str "id"; created_at = 0; expires_at = 9 }

abbrev inside : World
inside = record home { sessions = (str "t", session) ∷ [] }

recognised : (user_from_request env (some (str "t")) 5 inside).0 ≡ ok ann
unfolding user_from_request session_by_id Dict.lookup list_eq nat_eq user_by_id user_by
recognised = refl

user_from_request-IsOf_example :
    (token : Str) × (s : Session) × (some (str "t") ≡ some token)
    × (Dict.lookup token ((str "t", session) ∷ []) ≡ some s)
    × (ltb s.expires_at 5 ≡ false)
    × (first (λ v. v.id == s.user_id) (ann ∷ []) ≡ some ann)
user_from_request-IsOf_example = user_from_request-IsOf env (some (str "t")) 5 inside ann recognised

abbrev asked : PasswordReset
asked = record { token_hash = []; user_id = str "id"; expires_at = 9 }

abbrev pending : World
pending = record home { resets = ([], asked) ∷ [] }

confirmed : (confirm_password_reset env (str "k") (str "q") 5 pending).0 ≡ ok tt
unfolding confirm_password_reset password_reset_by_token_hash Dict.lookup list_eq hash_secret nat_eq
confirmed = refl

confirm_password_reset-ok_example :
    (r : PasswordReset) × (hash : Str) × (Dict.lookup (hash_secret env (str "k")) (([], asked) ∷ [])
      ≡ some r)
    × (ltb r.expires_at 5 ≡ false)
    × (env.hash_password (str "q") ≡ ok hash)
    × IsReset r.user_id hash
        (ann ∷ [])
        (confirm_password_reset env (str "k") (str "q") 5 pending).1.users
confirm_password_reset-ok_example =
    confirm_password_reset-ok env (str "k") (str "q") 5 pending confirmed

pending-own :
    (r : PasswordReset)
    → Dict.lookup (hash_secret env (str "k")) (([], asked) ∷ []) ≡ some r
    → r.token_hash ≡ hash_secret env (str "k")
unfolding hash_secret Dict.lookup list_eq
pending-own r found = cc

confirm_password_reset-once_example :
    (confirm_password_reset env
      (str "k")
      (str "z")
      6
      (confirm_password_reset env (str "k") (str "q") 5 pending).1).0
    ≡ err invalid_reset_token
confirm_password_reset-once_example =
    confirm_password_reset-once env (str "k") (str "q") (str "z") 5 6 pending env-Runs pending-own
      confirmed refl
