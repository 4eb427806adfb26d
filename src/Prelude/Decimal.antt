-- ===== src/Prelude/Decimal.antt =====
-- Go's `strconv.Itoa` and `%d` of a natural number.
use tidy_dav.Prelude.{ℕ, zero, suc, ◌+◌, Str, List, [], ◌∷◌, eqb, if◌then◌else◌}

increment : List ℕ → List ℕ
increment [] = b'1' ∷ []
increment (d ∷ ds) = let rest = increment ds in if eqb d b'9' then b'0' ∷ rest else (d + 1) ∷ ds

-- The decimal digits of a number, the last one first.
digits : ℕ → List ℕ
unfolding increment
digits zero = b'0' ∷ []
digits (suc n) = increment (digits n)

reverse_onto : Str → Str → Str
reverse_onto [] acc = acc
reverse_onto (c ∷ s) acc = reverse_onto s (c ∷ acc)

unfoldable pub decimal : ℕ → Str
unfolding digits reverse_onto
decimal n = reverse_onto (digits n) []
