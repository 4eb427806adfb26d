-- ===== src/Ics.antt =====
-- internal/ics/ics.go: the readers of an event's properties. go-ical, which keeps the properties,
-- and `strings.ToUpper` are parameters.
pub mod Text
pub mod Fold
pub mod Runes
pub mod Duration
pub mod Vtimezone
pub mod Recurrence
pub mod Serialize
mod Tests
use tidy_dav.Prelude.{
  ℕ, ◌≡◌, Str, str, Bool, true, false, not, ◌&&◌, Option, none, some, List, [], ◌∷◌, ◌++◌, length,
  contains, nat_eq, eqb, if◌then◌else◌,
}
use tidy_dav.Prelude.Clock.{Time}

-- What go-ical offers of an event: the value of a property, which is escaped, and how it is
-- changed; the start and the end, where they can be read.
pub record Props (E : Type 0) : Type 0 where
  pub get : E → Str → Option Str
  pub set_text : E → Str → Str → E
  pub del : E → Str → E
  pub date_time_start : E → Option Time
  pub date_time_end : E → Option Time
  pub to_upper : Str → Str

abbrev backslash : ℕ
backslash = b'\\'

-- What stands for a byte after a backslash.
unfoldable pub unescape_byte : ℕ → Str
unescape_byte n =
    if eqb n b'n'
    then 10 ∷ []
    else if eqb n b'N'
    then 10 ∷ []
    else if eqb n b'\\'
    then n ∷ []
    else if eqb n b','
    then n ∷ []
    else if eqb n b';'
    then n ∷ []
    else backslash ∷ n ∷ []

-- The loop over the bytes; a backslash at the end stays.
unfoldable pub unescape_bytes : Str → Str
unfolding unescape_byte
unescape_bytes [] = []
unescape_bytes (c ∷ []) = c ∷ []
unescape_bytes (c ∷ n ∷ s) =
    let escaped = unescape_byte n ++ unescape_bytes s in
    let plain = c ∷ unescape_bytes (n ∷ s) in if eqb c backslash then escaped else plain

unfoldable pub unescape_text : Str → Str
unfolding unescape_bytes
unescape_text v = if not (contains v backslash) then v else unescape_bytes v

abbrev or_empty : Option Str → Str
or_empty none = []
or_empty (some v) = v

abbrev text_of : Option Str → Str
text_of none = []
text_of (some v) = unescape_text v

-- `IsDateOnly`, on the value of the property.
unfoldable pub is_date_only : Str → Bool
is_date_only v = eqb (length v) 8 && not (contains v b'T')

module _ {E : Type 0} (props : Props E) where
  unfoldable pub text : E → Str → Str
  unfolding unescape_text
  text e field = text_of (props.get e field)

  unfoldable pub raw : E → Str → Str
  raw e field = or_empty (props.get e field)

  unfoldable pub remove : E → Str → E
  remove e field = props.del e (props.to_upper field)
