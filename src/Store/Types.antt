-- ===== src/Store/Types.antt =====
-- internal/store/store.go: the errors of a query.
use tidy_dav.Prelude.{Str, Option, none, some}
use tidy_dav.Prelude.Result.{Result, ok, err}

-- `ErrNotFound`, or an error of the driver under the statement's context.
pub data Error : Type 0 where
  not_found : Error
  failed : Str → Str → Error

-- A statement, which the database refuses with a message or runs.
abbrev pub query {ℓ} : {A : Type ℓ} → Str → Option Str → A → Result Error A
query context none a = ok a
query context (some e) a = err (failed context e)

-- What a statement that fails leaves behind: nothing has changed.
abbrev pub exec {ℓ} : {A : Type ℓ} → Option Str → A → A → A
exec none after before = after
exec (some e) after before = before
