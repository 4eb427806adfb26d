-- ===== src/Ics/Serialize.antt =====
-- internal/ics/ics.go: writing a calendar. The encoder of go-ical, for a calendar with components, is
-- a parameter; one without is written here.
use tidy_dav.Prelude.{
  ℕ, Str, str, Bool, true, false, ◌||◌, Option, none, some, List, [], ◌∷◌, ◌++◌, any, eqb, contains,
  nat_eq, list_eq, if◌then◌else◌,
}
use tidy_dav.Prelude.Dict
use tidy_dav.Prelude.Dict.{Dict, keys}
use tidy_dav.Prelude.Sort.{sort_strings}
use tidy_dav.Prelude.Result.{Result, ok, err}
use tidy_dav.Prelude.Int.{ℤ}
use tidy_dav.Ics.Duration.{duration}
use tidy_dav.Ics.Fold.{fold_line}

-- A property of a calendar, with its parameters.
pub record Prop : Type 0 where
  pub name : Str
  pub params : Dict Str (List Str)
  pub value : Str

abbrev pub Props : Type 0
Props = Dict Str (List Prop)

pub data Error : Type 0 where
  quoted_param : Str → Error
  broken_value : Str → Error
  encoder : Str → Error

abbrev pub values_of {ℓ} : {A : Type ℓ} → Option (List A) → List A
values_of none = []
values_of (some vs) = vs

abbrev quote : ℕ
quote = b'"'

-- A value of a parameter: one with a separator stands in quotes.
unfoldable pub param_value : Str → Str
param_value v =
    if any (λ c. eqb c b';' || (eqb c b':' || eqb c b',')) v then quote ∷ v ++ quote ∷ [] else v

unfoldable pub param_values : List Str → Str
unfolding param_value
param_values [] = []
param_values (v ∷ []) = param_value v
param_values (v ∷ w ∷ vs) = param_value v ++ str "," ++ param_values (w ∷ vs)

-- The parameters in the order of the names given; the error is that of a value with a quote.
abbrev cons_param : Bool → Str → List Str → Result Error Str → Result Error Str
cons_param true name vs rest = err (quoted_param name)
cons_param false name vs (err e) = err e
cons_param false name vs (ok s) = ok (str ";" ++ name ++ str "=" ++ param_values vs ++ s)

unfoldable pub param_text : Dict Str (List Str) → List Str → Result Error Str
unfolding param_values
param_text params [] = ok []
param_text params (name ∷ names) =
    let vs = values_of (Dict.lookup name params) in
    cons_param (any (λ v. contains v quote) vs) name vs (param_text params names)

abbrev with_value : Prop → Result Error Str → Result Error Str
with_value p (err e) = err e
with_value p (ok params) =
    if contains p.value 13 || contains p.value 10
    then err (broken_value p.name)
    else ok (p.name ++ params ++ str ":" ++ p.value)

unfoldable pub content_line : Prop → Result Error Str
unfolding param_text sort_strings
content_line p = with_value p (param_text p.params (sort_strings (keys p.params)))

abbrev pub Written : Type 0
Written = Result Error (Option Str)

-- What has been written, and then a line.
abbrev then_line : Result Error Str → Written → Written
then_line (err e) rest = err e
then_line (ok line) (err e) = err e
then_line (ok line) (ok none) = ok none
then_line (ok line) (ok (some rest)) =
    ok (elim (fold_line line) [ none ↦ none | some out ↦ some (out ++ rest) ])

unfoldable pub write_props : List Prop → Written → Written
unfolding content_line fold_line
write_props [] rest = rest
write_props (p ∷ ps) rest = then_line (content_line p) (write_props ps rest)

unfoldable pub write_names : Props → List Str → Written → Written
unfolding write_props
write_names props [] rest = rest
write_names props (name ∷ names) rest =
    write_props (values_of (Dict.lookup name props)) (write_names props names rest)

unfoldable pub serialize_empty : Props → Written
unfolding write_names sort_strings fold_line
serialize_empty props =
    then_line (ok (str "BEGIN:VCALENDAR"))
      (write_names props (sort_strings (keys props)) (ok (fold_line (str "END:VCALENDAR"))))

-- `Serialize`, with go-ical's encoder.
unfoldable pub serialize :
    {A : Type 0} → (Props → List A → Result Error Str) → Props → List A → Written
unfolding serialize_empty
serialize encode props [] = serialize_empty props
serialize encode props (c ∷ cs) = elim (encode props (c ∷ cs)) [
  | err e ↦ err e
  | ok s ↦ ok (some s)
]

-- `TextProp`, with go-ical's escape of text.
unfoldable pub text_prop : (Str → Str) → Str → Str → Prop
text_prop escape name value = record { name = name; params = []; value = escape value }

-- `DurationProp`
unfoldable pub duration_prop : Str → ℤ → Bool → Prop
unfolding duration
duration_prop name d with_value_param = record {
  name = name;
  params = if with_value_param then (str "VALUE", str "DURATION" ∷ []) ∷ [] else [];
  value = duration d;
}
