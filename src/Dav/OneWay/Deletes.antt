-- ===== src/Dav/OneWay/Deletes.antt =====
-- internal/dav/sync.go: what the deletion pass of `syncOneWay` keeps.
use tidy_dav.Prelude.{
  ◌≡◌, Str, false, Option, none, some, list_eq, nat_eq, is_empty, contains, ◌||◌, Bool-cases, inl,
  inr,
}
use tidy_dav.Prelude.Dict
use tidy_dav.Prelude.Result.{Result, ok, err}
use tidy_dav.Dav.Types.{Error, ItemMeta, Collection, ItemState, Counts, count_deleted, Env}
use tidy_dav.Dav.Href.{Index, lookup_meta}
use tidy_dav.Dav.OneWay.Vars.{Run, drop_item}
use tidy_dav.Dav.OneWay.Loops.{Holds, Holds-if}
use tidy_dav.Dav.OneWay.{record_delete, delete_copy, delete_entry, delete_item}

-- A property that outlasts a DELETE, and the drop of an entry that no item of the run stands for.
pub record IsDeletable {ℓ} {St : Type 0} (P : Run St → Type ℓ) : Type ℓ where
  pub lost : (r : Run St) (dst : St) → P r → P (record r { dst = dst })
  pub drop :
      (r : Run St) (uid : Str) (dst : St) (res : Counts)
      → (contains r.seen uid || contains r.filtered uid) ≡ false
      → P r
      → P (record r { items = Dict.erase uid r.items; dst = dst; res = res })

module _ {ℓ} (env : Env) (D : Collection) (idx : Index) (P : Run D.State → Type ℓ)
    (keeps : IsDeletable P) where
  record_delete-Holds :
      (r : Run D.State) (uid : Str) (w : Result Error (Unit {0}) × D.State)
      → (contains r.seen uid || contains r.filtered uid) ≡ false
      → P r
      → Holds P (record_delete env D idx r uid w)
  unfolding record_delete drop_item
  record_delete-Holds r uid (err e, dst') f h = keeps.lost r dst' h
  record_delete-Holds r uid (ok _, dst') f h = keeps.drop r uid dst' (count_deleted r.res) f h

  delete_copy-Holds :
      (r : Run D.State) (uid href : Str) (copy : Option ItemMeta)
      → (contains r.seen uid || contains r.filtered uid) ≡ false
      → P r
      → Holds P (delete_copy env D idx r uid href copy)
  unfolding delete_copy drop_item
  delete_copy-Holds r uid href none f h = keeps.drop r uid r.dst r.res f h
  delete_copy-Holds r uid href (some m) f h = record_delete-Holds r uid (D.delete r.dst href) f h

  delete_entry-Holds :
      (r : Run D.State) (uid : Str) (entry : Option ItemState)
      → (contains r.seen uid || contains r.filtered uid) ≡ false
      → P r
      → Holds P (delete_entry env D idx r uid entry)
  unfolding delete_entry drop_item
  delete_entry-Holds r uid none f h = h
  delete_entry-Holds r uid (some st) f h =
      Holds-if P (is_empty st.dst_href) _ _ (keeps.drop r uid r.dst r.res f h)
        (delete_copy-Holds r uid st.dst_href (lookup_meta env idx st.dst_href) f h)

  pub delete_item-Holds :
      (r : Run D.State) (uid : Str) → P r → Holds P (delete_item env D idx r uid)
  unfolding delete_item
  delete_item-Holds r uid h = elim (Bool-cases (contains r.seen uid || contains r.filtered uid)) [
    | inl stays ↦ rw stays h
    | inr gone ↦ rw gone (delete_entry-Holds r uid (Dict.lookup uid r.items) gone h)
  ]
