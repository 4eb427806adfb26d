-- ===== src/Dav/Keyed.antt =====
-- internal/dav: the state is keyed by UID, which `syncOneWay` and `resolveSide` rely on.
use mathlib.Core.Option.{get_or}
use tidy_dav.Prelude.{◌≡◌, refl, Str, Option, none, some, arith, list_eq, nat_eq}
use tidy_dav.Prelude.Dict
use tidy_dav.Dav.Types.{ItemState, Items}

-- Every entry stands under its own UID.
abbrev pub IsKeyed : Items → Type 0
IsKeyed items = (k : Str) (st : ItemState) → Dict.lookup k items ≡ some st → st.uid ≡ k

pub insert-IsKeyed :
    (items : Items) (uid : Str) (st : ItemState)
    → IsKeyed items
    → st.uid ≡ uid
    → IsKeyed (Dict.insert uid st items)
insert-IsKeyed items uid st h e k st' = rw Dict.lookup-insert (λ p. ground (arith, h k st'))

pub erase-IsKeyed : (items : Items) (uid : Str) → IsKeyed items → IsKeyed (Dict.erase uid items)
erase-IsKeyed items uid h k st = rw Dict.lookup-erase (λ p. ground (arith, h k st))

-- What Go reads at a UID: the entry, or a default of that UID.
pub get_or-uid :
    (items : Items) (uid : Str) (st : ItemState)
    → IsKeyed items
    → st.uid ≡ uid
    → (get_or (Dict.lookup uid items) st).uid ≡ uid
get_or-uid items uid st h e = go (Dict.lookup uid items) refl
  where
    go : (o : Option ItemState) → Dict.lookup uid items ≡ o → (get_or o st).uid ≡ uid
    go none p = e
    go (some st') p = h uid st' p
