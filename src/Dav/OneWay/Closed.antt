-- ===== src/Dav/OneWay/Closed.antt =====
-- internal/dav/sync.go: what the loop of `syncOneWay` over the source listing keeps.
use mathlib.Core.Option.{get_or}
use tidy_dav.Prelude.{
  ◌≡◌, refl, Str, str, Bool, true, false, Option, none, some, list_eq, nat_eq, not, ◌&&◌, is_empty,
  ◌==◌, Bool-cases, inl, inr, if◌then◌else◌,
}
use tidy_dav.Prelude.Dict
use tidy_dav.Prelude.Dict.{Dict}
use tidy_dav.Prelude.Result.{Result, ok, err}
use tidy_dav.Dav.Types.{
  Error, ItemMeta, Item, Collection, ItemState, no_item, Counts, Options, suffix, Env,
  count_created, count_updated,
}
use tidy_dav.Dav.Keyed.{IsKeyed, get_or-uid}
use tidy_dav.Dav.Extract.{in_window}
use tidy_dav.Dav.Href.{Index, body_hash, dest_href}
use tidy_dav.Dav.Mirror.{
  Status, dst_ok, dst_missing, dst_drifted, Verdict, Stored, inspect_dst, put_mirror,
}
use tidy_dav.Dav.OneWay.Vars.{
  Run, Prior, settled, unsettled, Checked, save, mark_seen, mark_filtered, note_unverified,
  with_dst, with_stored,
}
use tidy_dav.Dav.OneWay.Loops.{Holds, Holds-if}
use tidy_dav.Dav.OneWay.Item.{
  record_write, create_item, update_item, write_item, write_verified, settle_by, settle,
  check_known, refresh, item_uid, recheck, sync_item, fetch_item, after_check, mirror_item,
}

-- A property of the variables that outlasts each assignment of the loop.
pub record IsClosed {ℓ} {St : Type 0} (P : Run St → Type ℓ) : Type ℓ where
  pub keyed : (r : Run St) → P r → IsKeyed r.items
  pub write :
      (r : Run St) (uid : Str) (st : ItemState) (dst : St) (res : Counts)
      → P r
      → st.uid ≡ uid
      → P (record r { items = Dict.insert uid st r.items; dst = dst; res = res })
  pub lost : (r : Run St) (dst : St) → P r → P (record r { dst = dst })
  pub seen : (r : Run St) (uid : Str) → P r → P (mark_seen uid r)
  pub filtered : (r : Run St) (uid : Str) → P r → P (mark_filtered uid r)
  pub unverified : (r : Run St) (e : Error) → P r → P (note_unverified e r)

module _ {ℓ} {St : Type 0} (P : Run St → Type ℓ) where
  abbrev pub HoldsPrior : Prior St → Type ℓ
  HoldsPrior (settled r) = P r
  HoldsPrior (unsettled c) = Unit

module _ {ℓ} (env : Env) (S D : Collection) (src : S.State) (o : Options) (uid_of : Str → Str)
    (P : Run D.State → Type ℓ) (closed : IsClosed P) where
  record_write-closed :
      (r : Run D.State) (uid : Str) (cur : ItemState) (count : Counts → Counts) (context : Str)
      (w : Result Error Stored × D.State)
      → P r
      → cur.uid ≡ uid
      → Holds P (record_write env S D src o uid_of r uid cur count context w)
  unfolding record_write
  record_write-closed r uid cur count context (err e, dst') h p = closed.lost r dst' h
  record_write-closed r uid cur count context (ok s, dst') h p =
      closed.write r uid (with_stored cur s) dst' (count r.res) h p

  create_item-closed :
      (r : Run D.State) (uid : Str) (cur : ItemState) (item : Item)
      → P r
      → cur.uid ≡ uid
      → Holds P (create_item env S D src o uid_of r uid cur item)
  unfolding create_item
  create_item-closed r uid cur item h p =
      record_write-closed r uid cur count_created (str "create")
        (put_mirror env D r.dst
          (if is_empty cur.dst_href then dest_href uid (suffix o) else cur.dst_href) (str "")
          item.body)
        h p

  update_item-closed :
      (r : Run D.State) (uid : Str) (cur : ItemState) (item : Item)
      → P r
      → cur.uid ≡ uid
      → Holds P (update_item env S D src o uid_of r uid cur item)
  unfolding update_item
  update_item-closed r uid cur item h p =
      record_write-closed r uid cur count_updated (str "update")
        (put_mirror env D r.dst cur.dst_href cur.dst_etag item.body) h p

  write_item-closed :
      (r : Run D.State) (uid : Str) (cur : ItemState) (item : Item) (v : Verdict) (s : Status)
      (c : Bool)
      → P r
      → cur.uid ≡ uid
      → Holds P (write_item env S D src o uid_of r uid cur item v s c)
  unfolding write_item save
  write_item-closed r uid cur item v dst_missing c h p = create_item-closed r uid cur item h p
  write_item-closed r uid cur item v dst_drifted c h p = update_item-closed r uid cur item h p
  write_item-closed r uid cur item v dst_ok true h p = update_item-closed r uid cur item h p
  write_item-closed r uid cur item v dst_ok false h p =
      closed.write r uid (with_dst cur v.etag v.hash) r.dst r.res h p

  write_verified-closed :
      (r : Run D.State) (uid : Str) (cur : ItemState) (c : Bool) (item : Item)
      (v : Result Error Verdict)
      → P r
      → cur.uid ≡ uid
      → Holds P (write_verified env S D src o uid_of r uid cur c item v)
  unfolding write_verified
  write_verified-closed r uid cur c item (err e) h p = closed.unverified r e h
  write_verified-closed r uid cur c item (ok v) h p =
      write_item-closed r uid cur item v v.status c h p

  module _ (known : Dict Str ItemState) (idx : Index) where
    settle_by-closed :
        (r : Run D.State) (uid : Str) (cur : ItemState) (v : Verdict) (s : Status)
        → P r
        → cur.uid ≡ uid
        → HoldsPrior P (settle_by env S D src o uid_of known idx r uid cur v s)
    unfolding settle_by mark_seen save
    settle_by-closed r uid cur v dst_ok h p =
        closed.write (mark_seen uid r) uid (with_dst cur v.etag v.hash) r.dst r.res
          (closed.seen r uid h) p
    settle_by-closed r uid cur v _ h p = tt

    settle-closed :
        (r : Run D.State) (uid : Str) (cur : ItemState) (v : Result Error Verdict)
        → P r
        → cur.uid ≡ uid
        → HoldsPrior P (settle env S D src o uid_of known idx r uid cur v)
    unfolding settle
    settle-closed r uid cur (err e) h p =
        closed.seen (note_unverified e r) uid (closed.unverified r e h)
    settle-closed r uid cur (ok v) h p = settle_by-closed r uid cur v v.status h p

    check_known-closed :
        (r : Run D.State) (meta : ItemMeta) (found : Option ItemState)
        → P r
        → HoldsPrior P (check_known env S D src o uid_of known idx r meta found)
    unfolding check_known
    check_known-closed r meta none h = tt
    check_known-closed r meta (some st) h = elim (Bool-cases (st.src_etag == meta.etag)) [
      | inl same ↦
          let cur = get_or (Dict.lookup st.uid r.items) st in
          rw same (
            settle-closed r st.uid cur (inspect_dst env D r.dst cur idx) h
              (get_or-uid r.items st.uid st (closed.keyed r h) refl))
      | inr moved ↦ rw moved tt
    ]

    pub sync_item-closed :
        (r : Run D.State) (meta : ItemMeta) (c : Checked) (item : Item) (uid : Str)
        → P r
        → Holds P (sync_item env S D src o uid_of known idx r meta c item uid)
    unfolding sync_item
    sync_item-closed r meta c item uid h =
        let old = get_or (Dict.lookup uid r.items) no_item in
        let hash = body_hash env item.body in
        let cur = refresh env S D src o uid_of meta uid hash old in
        write_verified-closed r uid cur (not (is_empty old.src_hash) && not (old.src_hash == hash))
          item (recheck env S D src o uid_of known idx r c uid cur) h refl

    fetch_item-closed :
        (r : Run D.State) (meta : ItemMeta) (c : Checked) (got : Result Error Item)
        → P r
        → Holds P (fetch_item env S D src o uid_of known idx r meta c got)
    unfolding fetch_item
    fetch_item-closed r meta c (err e) h = h
    fetch_item-closed r meta c (ok item) h =
        let uid = item_uid env S D src o uid_of meta item in
        Holds-if P (not (in_window env o item.body)) _ _ (closed.filtered r uid h)
          (sync_item-closed (mark_seen uid r) meta c item uid (closed.seen r uid h))

    pub mirror_item-closed :
        (r : Run D.State) (meta : ItemMeta)
        → P r
        → Holds P (mirror_item env S D src o uid_of known idx r meta)
    unfolding mirror_item
    mirror_item-closed r meta h =
        go (check_known env S D src o uid_of known idx r meta (Dict.lookup meta.href known))
          (check_known-closed r meta (Dict.lookup meta.href known) h)
      where
        go :
            (p : Prior D.State)
            → HoldsPrior P p
            → Holds P (after_check env S D src o uid_of known idx r meta p)
        go (settled r') k = k
        go (unsettled c) k = fetch_item-closed r meta c (S.get src meta.href) h
