-- ===== src/Prelude/Sort.antt =====
-- `sort.Strings`: byte strings in lexicographic order.
use tidy_dav.Prelude.{Str, Bool, true, false, ◌&&◌, ◌||◌, List, [], ◌∷◌, ltb, eqb, if◌then◌else◌}

-- `a <= b`
unfoldable pub leb_str : Str → Str → Bool
leb_str [] b = true
leb_str (c ∷ a) [] = false
leb_str (c ∷ a) (d ∷ b) = ltb c d || eqb c d && leb_str a b

unfoldable pub place_str : Str → List Str → List Str
unfolding leb_str
place_str s [] = s ∷ []
place_str s (t ∷ ts) = let later = t ∷ place_str s ts in if leb_str s t then s ∷ t ∷ ts else later

unfoldable pub sort_strings : List Str → List Str
unfolding place_str
sort_strings [] = []
sort_strings (s ∷ ss) = place_str s (sort_strings ss)
