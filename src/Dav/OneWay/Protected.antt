-- ===== src/Dav/OneWay/Protected.antt =====
-- internal/dav/sync.go: what the source still lists is not deleted.
use mathlib.Core.Option.{get_or}
use tidy_dav.Prelude.{
  ◌≡◌, refl, ◌≢◌, Str, Option, none, some, List, [], list_eq, nat_eq, not, ◌==◌, Among, Bool-cases,
  inl, inr, subst, ◌∙◌,
}
use tidy_dav.Prelude.Dict
use tidy_dav.Prelude.Dict.{Dict}
use tidy_dav.Prelude.Result.{Result, ok, err}
use tidy_dav.Dav.Types.{Error, ItemMeta, Item, Collection, ItemState, Items, Options, Env}
use tidy_dav.Dav.Keyed.{IsKeyed, insert-IsKeyed, get_or-uid}
use tidy_dav.Dav.Extract.{in_window}
use tidy_dav.Dav.Href.{Index, index_by_href}
use tidy_dav.Dav.Mirror.{Status, dst_ok, Verdict, inspect_dst}
use tidy_dav.Dav.OneWay.Vars.{
  Run, Step, next, stop, Prior, settled, unsettled, Checked, each, save, mark_seen, note_unverified,
  by_src_href,
}
use tidy_dav.Dav.OneWay.Loops.{
  Holds, Holds-if, Next, Next-of_Holds, Holds-map, each-Holds, each-Next,
}
use tidy_dav.Dav.OneWay.Closed.{HoldsPrior, sync_item-closed, mirror_item-closed}
use tidy_dav.Dav.OneWay.Entries.{
  HasEntry, IsProtected, HasEntry-IsClosed, IsProtected-IsClosed, seen-now, filtered-now, IsKept,
  IsKept-IsDeletable,
}
use tidy_dav.Dav.OneWay.Deletes.{delete_item-Holds}
use tidy_dav.Dav.OneWay.Known.{by_src_href-Recorded}
use tidy_dav.Dav.OneWay.Ends.{close-Holds, sync_one_way-cases}
use tidy_dav.Dav.OneWay.Item.{
  settle_by, settle, check_known, item_uid, fetch_item, after_check, mirror_item,
}
use tidy_dav.Dav.OneWay.{delete_item, delete_gone, start, abort, mirror_all, sync_one_way}

module _ (env : Env) (S D : Collection) (src : S.State) (o : Options) (uid_of : Str → Str)
    (k : Str) where
  module _ (known : Dict Str ItemState) (idx : Index) where
    settle_by-IsProtected :
        (r : Run D.State) (uid : Str) (cur : ItemState) (v : Verdict) (s : Status)
        → uid ≡ k
        → IsKeyed r.items
        → cur.uid ≡ uid
        → HoldsPrior (IsProtected k) (settle_by env S D src o uid_of known idx r uid cur v s)
    unfolding settle_by
    settle_by-IsProtected r uid cur v dst_ok e h p =
        let (keyed, marked) = seen-now k r uid e h in
        unfold save mark_seen in (insert-IsKeyed r.items uid _ h p, marked)
    settle_by-IsProtected r uid cur v _ e h p = tt

    settle-IsProtected :
        (r : Run D.State) (uid : Str) (cur : ItemState) (v : Result Error Verdict)
        → uid ≡ k
        → IsKeyed r.items
        → cur.uid ≡ uid
        → HoldsPrior (IsProtected k) (settle env S D src o uid_of known idx r uid cur v)
    unfolding settle
    settle-IsProtected r uid cur (err e) u h p = seen-now k (note_unverified e r) uid u h
    settle-IsProtected r uid cur (ok v) u h p = settle_by-IsProtected r uid cur v v.status u h p

    check_known-IsProtected :
        (r : Run D.State) (meta : ItemMeta) (found : Option ItemState)
        → IsKeyed r.items
        → ((st : ItemState) → found ≡ some st → st.uid ≡ k)
        → HoldsPrior (IsProtected k) (check_known env S D src o uid_of known idx r meta found)
    unfolding check_known
    check_known-IsProtected r meta none h u = tt
    check_known-IsProtected r meta (some st) h u = elim (Bool-cases (st.src_etag == meta.etag)) [
      | inl same ↦
          let cur = get_or (Dict.lookup st.uid r.items) st in
          rw same (
            settle-IsProtected r st.uid cur (inspect_dst env D r.dst cur idx) (u st refl) h
              (get_or-uid r.items st.uid st h refl))
      | inr moved ↦ rw moved tt
    ]

    fetch_item-IsProtected :
        (r : Run D.State) (meta : ItemMeta) (c : Checked) (item : Item)
        → IsKeyed r.items
        → item_uid env S D src o uid_of meta item ≡ k
        → Holds (IsProtected k) (fetch_item env S D src o uid_of known idx r meta c (ok item))
    unfolding fetch_item
    fetch_item-IsProtected r meta c item h u =
        let uid = item_uid env S D src o uid_of meta item in
        Holds-if (IsProtected k) (not (in_window env o item.body)) _ _ (filtered-now k r uid u h) (
          sync_item-closed env S D src o uid_of (IsProtected k) (IsProtected-IsClosed k) known idx
            (mark_seen uid r) meta c item uid (seen-now k r uid u h))

    mirror_item-IsProtected :
        (r : Run D.State) (meta : ItemMeta) (item : Item)
        → S.get src meta.href ≡ ok item
        → item_uid env S D src o uid_of meta item ≡ k
        → ((st : ItemState) → Dict.lookup meta.href known ≡ some st → st.uid ≡ k)
        → IsKeyed r.items
        → Next (IsProtected k) (mirror_item env S D src o uid_of known idx r meta)
    unfolding mirror_item
    mirror_item-IsProtected r meta item got u known_uid h =
        go (check_known env S D src o uid_of known idx r meta (Dict.lookup meta.href known))
          (check_known-IsProtected r meta (Dict.lookup meta.href known) h known_uid)
      where
        go :
            (p : Prior D.State)
            → HoldsPrior (IsProtected k) p
            → Next (IsProtected k) (after_check env S D src o uid_of known idx r meta p)
        go (settled r') q = q
        go (unsettled c) q =
            Next-of_Holds (IsProtected k) _ (rw got (fetch_item-IsProtected r meta c item h u))

  delete_gone-HasEntry :
      (idx : Index) (s : Step D.State)
      → Holds (HasEntry k) s
      → Next (IsProtected k) s
      → Dict.lookup k (delete_gone env S D src o uid_of idx s).items ≢ none
  unfolding delete_gone
  delete_gone-HasEntry idx (stop r e) h q = h.1
  delete_gone-HasEntry idx (next r) h q =
      close-Holds (λ items. Dict.lookup k items ≢ none)
        (each (delete_item env D idx) (env.order (Dict.keys r.items)) r)
        (Holds-map (IsKept k) (λ v. Dict.lookup k v.items ≢ none) (λ v kept. kept.0) _
          (each-Holds (IsKept k) (delete_item env D idx)
            (λ r' uid kept.
              delete_item-Holds env D idx (IsKept k) (IsKept-IsDeletable k) r' uid kept)
            (env.order (Dict.keys r.items)) r (h.1, q.1)))

  mirror_all-HasEntry :
      (items : Items) (dst : D.State) (ms ds : List ItemMeta) (meta : ItemMeta) (item : Item)
      → IsKeyed items
      → Dict.lookup k items ≢ none
      → Among meta ms
      → S.get src meta.href ≡ ok item
      → item_uid env S D src o uid_of meta item ≡ k
      → ((st : ItemState)
          → Dict.lookup meta.href (by_src_href items (env.order (Dict.keys items)) []) ≡ some st
          → st.uid ≡ k)
      → Dict.lookup k (mirror_all env S D src o uid_of items dst ms ds).items ≢ none
  unfolding mirror_all
  mirror_all-HasEntry items dst ms ds meta item keyed present listed got u known_uid =
      let known = by_src_href items (env.order (Dict.keys items)) [] in
      let idx = index_by_href env ds in
      let step = mirror_item env S D src o uid_of known idx in
      let entry =
        each-Holds (HasEntry k) step
          (λ r m h.
            mirror_item-closed env S D src o uid_of (HasEntry k) (HasEntry-IsClosed k) known idx r m
              h)
          ms (start items dst) (keyed, present) in
      delete_gone-HasEntry idx (each step ms (start items dst)) entry (
        each-Next (HasEntry k) (IsProtected k) step
          (λ r m h.
            mirror_item-closed env S D src o uid_of (HasEntry k) (HasEntry-IsClosed k) known idx r m
              h)
          (λ r m h.
            mirror_item-closed env S D src o uid_of (IsProtected k) (IsProtected-IsClosed k) known
              idx r m h)
          meta (λ r h. mirror_item-IsProtected known idx r meta item got u known_uid h.0) ms listed
          (start items dst) (keyed, present))

-- A source item that is listed and can be read, and that no other entry of the state claims, keeps
-- its entry: however the run ends, in success or in an error, the deletion pass has not dropped it,
-- also where its destination copy could not be verified or it lies outside the date window.
pub sync_one_way-HasEntry :
    (env : Env) (S D : Collection) (src : S.State) (o : Options) (uid_of : Str → Str)
    (items : Items) (dst : D.State) (ms : List ItemMeta) (meta : ItemMeta) (item : Item)
    → IsKeyed items
    → S.list src ≡ ok ms
    → Among meta ms
    → S.get src meta.href ≡ ok item
    → ((uid : Str) (st : ItemState)
        → Dict.lookup uid items ≡ some st
        → st.src_href ≡ meta.href
        → uid ≡ item_uid env S D src o uid_of meta item)
    → Dict.lookup (item_uid env S D src o uid_of meta item) items ≢ none
    → Dict.lookup
        (item_uid env S D src o uid_of meta item)
        (sync_one_way env S D src o uid_of items dst).items
      ≢ none
unfolding abort
sync_one_way-HasEntry env S D src o uid_of items dst ms meta item keyed ls listed got own present =
    let k = item_uid env S D src o uid_of meta item in
    sync_one_way-cases env S D src o uid_of (λ out. Dict.lookup k out.items ≢ none) items dst
      (λ e. present)
      λ ms' ds ls' ld.
        mirror_all-HasEntry env S D src o uid_of k items dst ms' ds meta item keyed present
          (subst (Among meta) (same_list ms ms' ls ls') listed) got refl
          λ st known.
            let (uid, found, at) =
              by_src_href-Recorded items (env.order (Dict.keys items)) meta.href st known in
            keyed uid st found ∙ own uid st found at
  where
    same_list : (xs ys : List ItemMeta) → S.list src ≡ ok xs → S.list src ≡ ok ys → xs ≡ ys
    same_list xs ys p q = cc
