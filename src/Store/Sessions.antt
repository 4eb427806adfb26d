-- ===== src/Store/Sessions.antt =====
-- internal/store/sessions.go and internal/store/passwordreset.go: login sessions and pending
-- password resets, each under its primary key. The references to the users table are not modelled.
use tidy_dav.Prelude.{Str, str, Option, none, some, [], ◌∷◌, list_eq, nat_eq, leb, if◌then◌else◌}
use tidy_dav.Prelude.Dict
use tidy_dav.Prelude.Dict.{Dict}
use tidy_dav.Prelude.Result.{Result, ok, err}
use tidy_dav.Prelude.Clock.{Time, is_zero, at_second}
use tidy_dav.Store.Types.{Error, not_found, failed, query, exec}

pub record Session : Type 0 where
  pub id : Str
  pub user_id : Str
  pub created_at : Time
  pub expires_at : Time

pub record PasswordReset : Type 0 where
  pub token_hash : Str
  pub user_id : Str
  pub expires_at : Time

module _ {A : Type 0} where
  abbrev pub row : Option A → Result Error A
  row none = err not_found
  row (some a) = ok a

  unfoldable pub select : Str → Option Str → Str → Dict Str A → Result Error A
  select context none key rows = row (Dict.lookup key rows)
  select context (some e) key rows = err (failed context e)

  abbrev pub insert_if_new :
      Str → Str → A → Dict Str A → Option A → Result Error (Unit {0}) × Dict Str A
  insert_if_new context key a rows none = (ok tt, Dict.insert key a rows)
  insert_if_new context key a rows (some old) = (err (failed context (str "UNIQUE")), rows)

  -- An INSERT, which the primary key refuses where there is a row already.
  unfoldable pub insert_row :
      Str → Option Str → Str → A → Dict Str A → Result Error (Unit {0}) × Dict Str A
  insert_row context none key a rows = insert_if_new context key a rows (Dict.lookup key rows)
  insert_row context (some e) key a rows = (err (failed context e), rows)

  unfoldable pub expired : (A → Time) → Time → Dict Str A → Dict Str A
  expired at now [] = []
  expired at now ((k, a) ∷ rows) =
      let rest = expired at now rows in if leb (at a) (at_second now) then rest else (k, a) ∷ rest

unfoldable pub session_row : Time → Session → Session
session_row now s = record s {
  created_at = at_second (if is_zero s.created_at then now else s.created_at);
  expires_at = at_second s.expires_at;
}

unfoldable pub create_session :
    Option Str → Time → Session → Dict Str Session → Result Error (Unit {0}) × Dict Str Session
unfolding insert_row session_row
create_session db now s rows = insert_row (str "create session") db s.id (session_row now s) rows

unfoldable pub session_by_id : Option Str → Str → Dict Str Session → Result Error Session
unfolding select
session_by_id db id rows = select (str "query session") db id rows

unfoldable pub delete_session :
    Option Str → Str → Dict Str Session → Result Error (Unit {0}) × Dict Str Session
delete_session db id rows = (query (str "delete session") db tt, exec db (Dict.erase id rows) rows)

unfoldable pub delete_expired_sessions : Option Str → Time → Dict Str Session → Dict Str Session
unfolding expired
delete_expired_sessions db now rows = exec db (expired (λ s. s.expires_at) now rows) rows

unfoldable pub create_password_reset :
    Option Str
    → PasswordReset
    → Dict Str PasswordReset
    → Result Error (Unit {0}) × Dict Str PasswordReset
unfolding insert_row
create_password_reset db r rows =
    insert_row (str "create password reset") db r.token_hash
      (record r { expires_at = at_second r.expires_at }) rows

unfoldable pub password_reset_by_token_hash :
    Option Str → Str → Dict Str PasswordReset → Result Error PasswordReset
unfolding select
password_reset_by_token_hash db hash rows = select (str "query password reset") db hash rows

unfoldable pub delete_password_reset :
    Option Str → Str → Dict Str PasswordReset → Result Error (Unit {0}) × Dict Str PasswordReset
delete_password_reset db hash rows =
    (query (str "delete password reset") db tt, exec db (Dict.erase hash rows) rows)

unfoldable pub delete_expired_password_resets :
    Option Str → Time → Dict Str PasswordReset → Dict Str PasswordReset
unfolding expired
delete_expired_password_resets db now rows = exec db (expired (λ r. r.expires_at) now rows) rows
