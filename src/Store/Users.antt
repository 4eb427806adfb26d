-- ===== src/Store/Users.antt =====
-- internal/store/users.go: the accounts. An argument of type `Option Str` is the error of a
-- statement, if it fails; a column that may be NULL is an option.
use tidy_dav.Prelude.{
  Str, str, Bool, true, false, ◌||◌, Option, none, some, List, [], ◌∷◌, is_empty, any, list_eq,
  nat_eq, ◌==◌, if◌then◌else◌,
}
use tidy_dav.Prelude.Result.{Result, ok, err}
use tidy_dav.Prelude.Clock.{Time, is_zero, at_second}
use tidy_dav.Store.Types.{Error, not_found, failed}

pub record User : Type 0 where
  pub id : Str
  pub kind : Str
  pub email : Option Str
  pub password_hash : Option Str
  pub oidc_subject : Option Str
  pub secret_hash : Option Str
  pub is_admin : Bool
  pub created_at : Time
  pub avatar_url : Str

-- `column = ?`, which a NULL never is.
abbrev pub is_value : Option Str → Str → Bool
is_value none v = false
is_value (some s) v = s == v

unfoldable pub first : (User → Bool) → List User → Option User
first p [] = none
first p (u ∷ us) = if p u then some u else first p us

abbrev pub found : Option User → Result Error User
found none = err not_found
found (some u) = ok u

unfoldable pub user_by : Option Str → (User → Bool) → List User → Result Error User
unfolding first
user_by none p us = found (first p us)
user_by (some e) p us = err (failed (str "query user") e)

unfoldable pub user_by_id : Option Str → Str → List User → Result Error User
user_by_id db id us = user_by db (λ u. u.id == id) us

unfoldable pub user_by_email : Option Str → Str → List User → Result Error User
user_by_email db email us = user_by db (λ u. is_value u.email email) us

unfoldable pub user_by_oidc_subject : Option Str → Str → List User → Result Error User
user_by_oidc_subject db subject us = user_by db (λ u. is_value u.oidc_subject subject) us

abbrev both : Option Str → Option Str → Bool
both none b = false
both (some a) b = is_value b a

-- The primary key and the unique indices.
unfoldable pub clashes : User → User → Bool
clashes u v =
    u.id == v.id
    || (both u.email v.email
        || (both u.oidc_subject v.oidc_subject || both u.secret_hash v.secret_hash))

-- The first argument says whether a row of the table is in the way.
unfoldable pub insert_unless : Bool → User → List User → Result Error User × List User
insert_unless true u us = (err (failed (str "create user") (str "UNIQUE")), us)
insert_unless false u us = (ok u, u ∷ us)

unfoldable pub insert_user : Option Str → User → List User → Result Error User × List User
unfolding clashes insert_unless
insert_user none u us = insert_unless (any (clashes u) us) u us
insert_user (some e) u us = (err (failed (str "create user") e), us)

unfoldable pub created_row : Time → User → User
created_row now u = record u {
  created_at = at_second (if is_zero u.created_at then now else u.created_at);
}

unfoldable pub create_user : Option Str → Time → User → List User → Result Error User × List User
unfolding created_row
create_user db now u us = insert_user db (created_row now u) us

-- The very first user is the administrator. The user that is returned is the row, of which the time
-- is rounded down; the code gives its caller the time as it was.
unfoldable pub create_user_bootstrap_admin :
    Option Str → Time → User → List User → Result Error User × List User
unfolding created_row
create_user_bootstrap_admin db now u us =
    insert_user db (created_row now (record u { is_admin = is_empty us })) us

unfoldable pub set_password : Str → Str → List User → List User
set_password id hash [] = []
set_password id hash (u ∷ us) =
    (if u.id == id then record u { password_hash = some hash } else u) ∷ set_password id hash us

-- `UpdateUserPassword`, which wants a row to be affected.
unfoldable pub update_user_password :
    Option Str → Str → Str → List User → Result Error (Unit {0}) × List User
unfolding set_password
update_user_password (some e) id hash us = (err (failed (str "update user password") e), us)
update_user_password none id hash us =
    (if any (λ u. u.id == id) us then ok tt else err not_found, set_password id hash us)

unfoldable pub set_avatar_and_admin : Str → Str → Bool → List User → List User
set_avatar_and_admin id avatar admin [] = []
set_avatar_and_admin id avatar admin (u ∷ us) =
    (if u.id == id then record u { avatar_url = avatar; is_admin = admin } else u)
    ∷ set_avatar_and_admin id avatar admin us

-- `UpdateUserAvatarAndAdmin`, to which it is all the same whether a row is affected.
unfoldable pub update_user_avatar_and_admin :
    Option Str → Str → Str → Bool → List User → Result Error (Unit {0}) × List User
unfolding set_avatar_and_admin
update_user_avatar_and_admin (some e) id avatar admin us =
    (err (failed (str "update user avatar/admin") e), us)
update_user_avatar_and_admin none id avatar admin us =
    (ok tt, set_avatar_and_admin id avatar admin us)
