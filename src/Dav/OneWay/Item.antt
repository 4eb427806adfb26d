-- ===== src/Dav/OneWay/Item.antt =====
-- internal/dav/sync.go: the body of the loop of `syncOneWay` over the source listing.
use mathlib.Core.Option.{get_or}
use tidy_dav.Prelude.{
  Str, str, Bool, true, false, not, ◌&&◌, Option, none, some, is_empty, ◌==◌, list_eq, nat_eq,
  if◌then◌else◌,
}
use tidy_dav.Prelude.Dict
use tidy_dav.Prelude.Dict.{Dict}
use tidy_dav.Prelude.Result.{Result, ok, err}
use tidy_dav.Dav.Types.{
  Error, wrap, ItemMeta, Item, Collection, ItemState, no_item, Options, suffix, Counts,
  count_created, count_updated, Env,
}
use tidy_dav.Dav.Extract.{in_window}
use tidy_dav.Dav.Href.{Index, body_hash, dest_href}
use tidy_dav.Dav.Mirror.{
  Status, dst_ok, dst_missing, dst_drifted, Verdict, Stored, inspect_dst, put_mirror,
}
use tidy_dav.Dav.OneWay.Vars.{
  Run, Step, next, stop, Checked, unchecked, Prior, settled, unsettled, note_unverified, mark_seen,
  mark_filtered, save, with_dst, with_stored,
}

module _ (env : Env) (S D : Collection) (src : S.State) (o : Options) (uid_of : Str → Str) where
  -- The end of a write: the entry takes what the destination now holds.
  unfoldable pub record_write :
      Run D.State
      → Str
      → ItemState
      → (Counts → Counts)
      → Str
      → Result Error Stored × D.State
      → Step D.State
  record_write r uid cur count context (err e, dst') =
      stop (record r { dst = dst' }) (wrap context e)
  record_write r uid cur count context (ok s, dst') = next (record r {
    dst = dst';
    items = Dict.insert uid (with_stored cur s) r.items;
    res = count r.res;
  })

  -- A remembered href is used again.
  unfoldable pub create_item : Run D.State → Str → ItemState → Item → Step D.State
  unfolding record_write
  create_item r uid cur item =
      let href = if is_empty cur.dst_href then dest_href uid (suffix o) else cur.dst_href in
      record_write r uid cur count_created (str "create")
        (put_mirror env D r.dst href (str "") item.body)

  unfoldable pub update_item : Run D.State → Str → ItemState → Item → Step D.State
  unfolding record_write
  update_item r uid cur item =
      record_write r uid cur count_updated (str "update")
        (put_mirror env D r.dst cur.dst_href cur.dst_etag item.body)

  -- The switch at the end of the loop body; the flag is `srcChanged`.
  unfoldable pub write_item :
      Run D.State → Str → ItemState → Item → Verdict → Status → Bool → Step D.State
  unfolding create_item update_item save
  write_item r uid cur item v dst_missing src_changed = create_item r uid cur item
  write_item r uid cur item v dst_drifted src_changed = update_item r uid cur item
  write_item r uid cur item v dst_ok true = update_item r uid cur item
  write_item r uid cur item v dst_ok false = next (save uid (with_dst cur v.etag v.hash) r)

  unfoldable pub write_verified :
      Run D.State → Str → ItemState → Bool → Item → Result Error Verdict → Step D.State
  unfolding write_item note_unverified
  write_verified r uid cur src_changed item (err e) = next (note_unverified e r)
  write_verified r uid cur src_changed item (ok v) =
      write_item r uid cur item v v.status src_changed

  -- The state entry with what the source now says.
  unfoldable pub refresh : ItemMeta → Str → Str → ItemState → ItemState
  refresh meta uid src_hash cur = record cur {
    uid = uid;
    src_href = meta.href;
    src_etag = meta.etag;
    src_hash = src_hash;
  }

  unfoldable pub item_uid : ItemMeta → Item → Str
  item_uid meta item = let uid = uid_of item.body in if is_empty uid then meta.href else uid

  module _ (known : Dict Str ItemState) (idx : Index) where
    unfoldable pub settle_by : Run D.State → Str → ItemState → Verdict → Status → Prior D.State
    unfolding mark_seen save
    settle_by r uid cur v dst_ok = settled (save uid (with_dst cur v.etag v.hash) (mark_seen uid r))
    settle_by r uid cur v _ = unsettled (record { uid = uid; verdict = v })

    -- What the verification of an unchanged item leads to.
    unfoldable pub settle : Run D.State → Str → ItemState → Result Error Verdict → Prior D.State
    unfolding note_unverified mark_seen settle_by
    settle r uid cur (err e) = settled (mark_seen uid (note_unverified e r))
    settle r uid cur (ok v) = settle_by r uid cur v v.status

    -- The source is unchanged: verify the destination copy all the same.
    unfoldable pub check_unchanged : Run D.State → ItemState → Prior D.State
    unfolding settle
    check_unchanged r st =
        let cur = get_or (Dict.lookup st.uid r.items) st in
        settle r st.uid cur (inspect_dst env D r.dst cur idx)

    unfoldable pub check_known : Run D.State → ItemMeta → Option ItemState → Prior D.State
    unfolding check_unchanged
    check_known r meta none = unsettled unchecked
    check_known r meta (some st) =
        if st.src_etag == meta.etag then check_unchanged r st else unsettled unchecked

    -- The verdict of the first check, if it was about this item.
    unfoldable pub recheck : Run D.State → Checked → Str → ItemState → Result Error Verdict
    recheck r c uid cur = if c.uid == uid then ok c.verdict else inspect_dst env D r.dst cur idx

    unfoldable pub sync_item : Run D.State → ItemMeta → Checked → Item → Str → Step D.State
    unfolding write_verified refresh recheck
    sync_item r meta c item uid =
        let old = get_or (Dict.lookup uid r.items) no_item in
        let hash = body_hash env item.body in
        let cur = refresh meta uid hash old in
        let src_changed = not (is_empty old.src_hash) && not (old.src_hash == hash) in
        write_verified r uid cur src_changed item (recheck r c uid cur)

    unfoldable pub fetch_item : Run D.State → ItemMeta → Checked → Result Error Item → Step D.State
    unfolding sync_item item_uid mark_seen mark_filtered
    fetch_item r meta c (err e) = stop r (wrap (str "get") e)
    fetch_item r meta c (ok item) =
        let uid = item_uid meta item in
        if not (in_window env o item.body)
        then next (mark_filtered uid r)
        else sync_item (mark_seen uid r) meta c item uid

    unfoldable pub after_check : Run D.State → ItemMeta → Prior D.State → Step D.State
    unfolding fetch_item
    after_check r meta (settled r') = next r'
    after_check r meta (unsettled c) = fetch_item r meta c (S.get src meta.href)

    -- The body of the loop over the source listing.
    unfoldable pub mirror_item : Run D.State → ItemMeta → Step D.State
    unfolding check_known after_check
    mirror_item r meta = after_check r meta (check_known r meta (Dict.lookup meta.href known))
