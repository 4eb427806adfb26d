-- ===== src/Store/Audit.antt =====
-- internal/store/audit.go and internal/audit/audit.go: the audit log, the latest entry first.
use tidy_dav.Prelude.{ℕ, Str, str, ◌||◌, Option, none, some, List, [], ◌∷◌, take, if◌then◌else◌}
use tidy_dav.Prelude.Int.{ℤ, pos, leb_ℤ, ltb_ℤ, pos_part}
use tidy_dav.Prelude.Clock.{Time, is_zero, at_second}
use tidy_dav.Prelude.Result.{Result}
use tidy_dav.Store.Types.{Error, query, exec}
use tidy_dav.Store.Users.{User}

pub record AuditEntry : Type 0 where
  pub user_id : Str
  pub user_email : Str
  pub action : Str
  pub target : Str
  pub detail : Str
  pub created_at : Time

-- `AddAuditEntry`: what the table is after it; the caller only logs the error.
unfoldable pub add_audit_entry : Option Str → Time → AuditEntry → List AuditEntry → List AuditEntry
add_audit_entry db now e log =
    let at = if is_zero e.created_at then now else e.created_at in
    exec db (record e { created_at = at_second at } ∷ log) log

abbrev pub limit_of : ℤ → ℕ
limit_of n = if leb_ℤ n (pos 0) || ltb_ℤ (pos 1000) n then 200 else pos_part n

unfoldable pub list_audit_entries :
    Option Str → ℤ → List AuditEntry → Result Error (List AuditEntry)
list_audit_entries db limit log = query (str "list audit entries") db (take (limit_of limit) log)

abbrev email_of : Option Str → Str
email_of none = []
email_of (some e) = e

-- `Logger.Record`
unfoldable pub record_entry :
    Option Str → Time → User → Str → Str → Str → List AuditEntry → List AuditEntry
unfolding add_audit_entry
record_entry db now user action target detail log =
    add_audit_entry db now
      (record {
        user_id = user.id;
        user_email = email_of user.email;
        action = action;
        target = target;
        detail = detail;
        created_at = 0;
      })
      log
