-- ===== src/Dav/OneWay/Entries.antt =====
-- internal/dav/sync.go: entries of the state that the deletion pass of `syncOneWay` passes over.
use tidy_dav.Prelude.{◌≡◌, ◌≢◌, Str, true, false, none, list_eq, nat_eq, contains, ◌||◌, arith}
use tidy_dav.Prelude.Dict
use tidy_dav.Dav.Types.{ItemState, Items}
use tidy_dav.Dav.Keyed.{IsKeyed, insert-IsKeyed}
use tidy_dav.Dav.OneWay.Vars.{Run, mark_seen, mark_filtered, note_unverified}
use tidy_dav.Dav.OneWay.Deletes.{IsDeletable}
use tidy_dav.Dav.OneWay.Closed.{IsClosed}

-- The state has an entry of this UID.
abbrev pub HasEntry : {St : Type 0} → Str → Run St → Type 0
HasEntry k r = IsKeyed r.items × (Dict.lookup k r.items ≢ none)

-- The deletion pass will pass over this UID.
abbrev pub IsProtected : {St : Type 0} → Str → Run St → Type 0
IsProtected k r = IsKeyed r.items × ((contains r.seen k || contains r.filtered k) ≡ true)

insert-ne-none :
    (k : Str) (items : Items) (uid : Str) (st : ItemState)
    → Dict.lookup k items ≢ none
    → Dict.lookup k (Dict.insert uid st items) ≢ none
insert-ne-none k items uid st h = rw Dict.lookup-insert (ground arith)

module _ {St : Type 0} (k : Str) where
  pub HasEntry-IsClosed : IsClosed (HasEntry {St = St} k)
  unfolding mark_seen mark_filtered note_unverified
  HasEntry-IsClosed = record {
    keyed = λ r h. h.0;
    write = λ r uid st dst res h e.
        (insert-IsKeyed r.items uid st h.0 e, insert-ne-none k r.items uid st h.1);
    lost = λ r dst h. h;
    seen = λ r uid h. h;
    filtered = λ r uid h. h;
    unverified = λ r e h. h;
  }

  seen-more :
      (r : Run St) (uid : Str)
      → (contains r.seen k || contains r.filtered k) ≡ true
      → (contains (mark_seen uid r).seen k || contains (mark_seen uid r).filtered k) ≡ true
  unfolding mark_seen
  seen-more r uid h = ground arith

  filtered-more :
      (r : Run St) (uid : Str)
      → (contains r.seen k || contains r.filtered k) ≡ true
      → (contains (mark_filtered uid r).seen k || contains (mark_filtered uid r).filtered k) ≡ true
  unfolding mark_filtered
  filtered-more r uid h = ground arith

  pub IsProtected-IsClosed : IsClosed (IsProtected {St = St} k)
  unfolding mark_seen mark_filtered note_unverified
  IsProtected-IsClosed = record {
    keyed = λ r h. h.0;
    write = λ r uid st dst res h e. (insert-IsKeyed r.items uid st h.0 e, h.1);
    lost = λ r dst h. h;
    seen = λ r uid h. (h.0, seen-more r uid h.1);
    filtered = λ r uid h. (h.0, filtered-more r uid h.1);
    unverified = λ r e h. h;
  }

  pub seen-now :
      (r : Run St) (uid : Str) → uid ≡ k → IsKeyed r.items → IsProtected k (mark_seen uid r)
  unfolding mark_seen
  seen-now r uid e h = (h, ground arith)

  pub filtered-now :
      (r : Run St) (uid : Str) → uid ≡ k → IsKeyed r.items → IsProtected k (mark_filtered uid r)
  unfolding mark_filtered
  filtered-now r uid e h = (h, ground arith)

-- Both, without the UIDs of the other entries.
abbrev pub IsKept : {St : Type 0} → Str → Run St → Type 0
IsKept k r = (Dict.lookup k r.items ≢ none) × ((contains r.seen k || contains r.filtered k) ≡ true)

erase-ne-none :
    {St : Type 0} (k : Str) (r : Run St) (uid : Str)
    → (contains r.seen uid || contains r.filtered uid) ≡ false
    → IsKept k r
    → Dict.lookup k (Dict.erase uid r.items) ≢ none
erase-ne-none k r uid f h = rw Dict.lookup-erase (ground arith)

pub IsKept-IsDeletable : {St : Type 0} (k : Str) → IsDeletable (IsKept {St = St} k)
IsKept-IsDeletable k = record {
  lost = λ r dst h. h;
  drop = λ r uid dst res f h. (erase-ne-none k r uid f h, h.1);
}
