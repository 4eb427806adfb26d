-- ===== src/Dav/OneWay/Known.antt =====
-- internal/dav/sync.go: the index of the state by source href.
use tidy_dav.Prelude.{
  ◌≡◌, refl, ◌≢◌, Str, Option, none, some, List, [], ◌∷◌, ◌⊎◌, inl, inr, arith, list_eq, nat_eq,
  is_empty, Bool-cases,
}
use tidy_dav.Prelude.Dict
use tidy_dav.Prelude.Dict.{Dict}
use tidy_dav.Dav.Types.{ItemState, Items}
use tidy_dav.Dav.OneWay.Vars.{add_known, by_src_href}

-- The state has this entry, and it stands for this source href.
abbrev pub Recorded : Items → Str → ItemState → Type 0
Recorded items href st = (uid : Str) × (Dict.lookup uid items ≡ some st) × (st.src_href ≡ href)

lookup-add_known :
    (items : Items) (uid href : Str) (found : Option ItemState) (acc : Dict Str ItemState)
    (st : ItemState)
    → Dict.lookup uid items ≡ found
    → Dict.lookup href (add_known found acc) ≡ some st
    → (Dict.lookup href acc ≡ some st) ⊎ Recorded items href st
unfolding add_known
lookup-add_known items uid href none acc st e h = inl h
lookup-add_known items uid href (some st') acc st e h = elim (Bool-cases (is_empty st'.src_href)) [
  | inl blank ↦ inl (rw blank at h)
  | inr full ↦ elim (Dict.lookup-insert_cases href st'.src_href st' st acc (rw full at h)) [
    | inl (p, q) ↦ inr (uid, ground arith, ground arith)
    | inr before ↦ inl before
  ]
]

pub lookup-by_src_href :
    (items : Items) (uids : List Str) (acc : Dict Str ItemState) (href : Str) (st : ItemState)
    → Dict.lookup href (by_src_href items uids acc) ≡ some st
    → (Dict.lookup href acc ≡ some st) ⊎ Recorded items href st
unfolding by_src_href
lookup-by_src_href items [] acc href st h = inl h
lookup-by_src_href items (uid ∷ uids) acc href st h =
    elim (lookup-by_src_href items uids (add_known (Dict.lookup uid items) acc) href st h) [
      | inl p ↦ lookup-add_known items uid href (Dict.lookup uid items) acc st refl p
      | inr p ↦ inr p
    ]

no_entry : (href : Str) (st : ItemState) → Dict.lookup href [] ≢ some st
unfolding Dict.lookup
no_entry href st p = cc p

-- What the index finds at a source href is an entry of the state that stands for it.
pub by_src_href-Recorded :
    (items : Items) (uids : List Str) (href : Str) (st : ItemState)
    → Dict.lookup href (by_src_href items uids []) ≡ some st
    → Recorded items href st
by_src_href-Recorded items uids href st h = elim (lookup-by_src_href items uids [] href st h) [
  | inl p ↦ absurd (no_entry href st p)
  | inr found ↦ found
]
