-- ===== src/Store/Notified.antt =====
-- internal/store/notified.go: the ledger of what has been announced, by feed and event key. An
-- argument of type `Option Str` is the error of a statement, if it fails.
use tidy_dav.Prelude.{
  ◌≡◌, refl, ◌⊎◌, inl, inr, ltb, Str, str, Bool, true, false, Option, none, some, [], ◌∷◌, list_eq,
  nat_eq, pair_eq, arith, if◌then◌else◌,
}
use tidy_dav.Prelude.Dict
use tidy_dav.Prelude.Dict.{Dict}
use tidy_dav.Prelude.Result.{Result, ok, err}
use tidy_dav.Prelude.Clock.{Time, at_second}
use tidy_dav.Store.Types.{Error, failed, query, exec}

abbrev pub Ledger : Type 0
Ledger = Dict (Str × Str) Time

-- The update has refreshed a row, or there is none and one is inserted.
unfoldable pub mark_row :
    Option Str → Time → Str × Str → Ledger → Option Time → Result Error Bool × Ledger
mark_row insertion now k rows (some t) = (ok false, Dict.insert k (at_second now) rows)
mark_row none now k rows none = (ok true, Dict.insert k (at_second now) rows)
mark_row (some e) now k rows none = (err (failed (str "mark notified") e), rows)

unfoldable pub mark_notified :
    Option Str → Option Str → Time → Str → Str → Ledger → Result Error Bool × Ledger
unfolding mark_row
mark_notified (some e) insertion now feed key rows = (err (failed (str "refresh notified") e), rows)
mark_notified none insertion now feed key rows =
    mark_row insertion now (feed, key) rows (Dict.lookup (feed, key) rows)

abbrev pub is_some : {A : Type 0} → Option A → Bool
is_some none = false
is_some (some a) = true

-- The ledger has a row for the key.
abbrev pub knows : Str → Str → Ledger → Bool
knows feed key rows = is_some (Dict.lookup (feed, key) rows)

unfoldable pub is_notified : Option Str → Str → Str → Ledger → Result Error Bool
is_notified db feed key rows = query (str "query notified") db (knows feed key rows)

unfoldable pub unmark_notified : Option Str → Str → Str → Ledger → Result Error (Unit {0}) × Ledger
unmark_notified db feed key rows =
    (query (str "unmark notified") db tt, exec db (Dict.erase (feed, key) rows) rows)

unfoldable keep_from : Time → Ledger → Ledger
keep_from cutoff [] = []
keep_from cutoff ((k, t) ∷ rows) =
    let rest = keep_from cutoff rows in if ltb t cutoff then rest else (k, t) ∷ rest

unfoldable pub delete_notified_before : Option Str → Time → Ledger → Ledger
unfolding keep_from
delete_notified_before db cutoff rows = exec db (keep_from (at_second cutoff) rows) rows

knows-insert :
    (j k : Str × Str) (now : Time) (rows : Ledger)
    → is_some (Dict.lookup j rows) ≡ true
    → is_some (Dict.lookup j (Dict.insert k now rows)) ≡ true
knows-insert j k now rows h = ground (arith, Dict.lookup-insert j k now rows)

knows-insert_self :
    (k : Str × Str) (now : Time) (rows : Ledger)
    → is_some (Dict.lookup k (Dict.insert k now rows)) ≡ true
knows-insert_self k now rows = ground (arith, Dict.lookup-insert k k now rows)

pub knows-erase_self :
    (k : Str × Str) (rows : Ledger) → is_some (Dict.lookup k (Dict.erase k rows)) ≡ false
knows-erase_self k rows = ground (arith, Dict.lookup-erase k k rows)

module _ (now : Time) (k : Str × Str) (rows : Ledger) where
  mark_row-knows :
      (i : Option Str) (old : Option Time) (j : Str × Str)
      → is_some (Dict.lookup j rows) ≡ true
      → is_some (Dict.lookup j (mark_row i now k rows old).1) ≡ true
  unfolding mark_row
  mark_row-knows i (some t) j h = knows-insert j k (at_second now) rows h
  mark_row-knows none none j h = knows-insert j k (at_second now) rows h
  mark_row-knows (some e) none j h = h

  mark_row-new :
      (i : Option Str) (old : Option Time) (new : Bool)
      → (mark_row i now k rows old).0 ≡ ok new
      → is_some (Dict.lookup k (mark_row i now k rows old).1) ≡ true
  unfolding mark_row
  mark_row-new i (some t) new h = knows-insert_self k (at_second now) rows
  mark_row-new none none new h = knows-insert_self k (at_second now) rows
  mark_row-new (some e) none new h = cc

  mark_row-known :
      (i : Option Str) (old : Option Time)
      → is_some old ≡ true
      → (mark_row i now k rows old).0 ≡ ok false
  unfolding mark_row
  mark_row-known i (some t) h = refl
  mark_row-known i none h = cc

  mark_row-ok : (old : Option Time) → (b : Bool) × ((mark_row none now k rows old).0 ≡ ok b)
  unfolding mark_row
  mark_row-ok (some t) = (_, refl)
  mark_row-ok none = (_, refl)

-- Statements that do not fail mark the key.
pub mark_notified-ok :
    (u i : Option Str) (now : Time) (feed key : Str) (rows : Ledger)
    → u ≡ none
    → i ≡ none
    → (b : Bool) × ((mark_notified u i now feed key rows).0 ≡ ok b)
unfolding mark_notified
mark_notified-ok none none now feed key rows p q = mark_row-ok now (feed, key) rows _
mark_notified-ok none (some e) now feed key rows p q = cc
mark_notified-ok (some e) i now feed key rows p q = cc

module _ (i : Option Str) (now : Time) (feed key : Str) (rows : Ledger) where
  -- Nothing but a removal makes the ledger forget a key.
  pub mark_notified-knows :
      (u : Option Str) (other : Str)
      → knows feed other rows ≡ true
      → knows feed other (mark_notified u i now feed key rows).1 ≡ true
  unfolding mark_notified
  mark_notified-knows none other h = mark_row-knows now (feed, key) rows i _ (feed, other) h
  mark_notified-knows (some e) other h = h

  -- A key that is known is not new.
  pub mark_notified-known :
      (u : Option Str)
      → knows feed key rows ≡ true
      → ((mark_notified u i now feed key rows).0 ≡ ok false)
        ⊎ ((e : Error) × ((mark_notified u i now feed key rows).0 ≡ err e))
  unfolding mark_notified
  mark_notified-known none h = inl (mark_row-known now (feed, key) rows i _ h)
  mark_notified-known (some e) h = inr (_, refl)

  -- A key that has been marked is known.
  pub mark_notified-new :
      (u : Option Str) (new : Bool)
      → (mark_notified u i now feed key rows).0 ≡ ok new
      → knows feed key (mark_notified u i now feed key rows).1 ≡ true
  unfolding mark_notified
  mark_notified-new none new = mark_row-new now (feed, key) rows i _ new
  mark_notified-new (some e) new = λ h. cc
