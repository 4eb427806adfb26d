-- ===== src/Dav/Bidi/Item.antt =====
-- internal/dav/sync_bidi.go: the body of the loop of `syncBidirectional` over the UIDs.
use tidy_dav.Prelude.{
  Str, str, Bool, true, false, not, ◌&&◌, Option, none, some, List, is_empty, ltb, contains,
  list_eq, nat_eq, if◌then◌else◌,
}
use tidy_dav.Prelude.Dict
use tidy_dav.Prelude.Dict.{Dict}
use tidy_dav.Prelude.Result.{Result, ok, err, map_err, ◌>>=◌}
use tidy_dav.Dav.Types.{
  Error, wrap, Item, Collection, Conflict, newest_wins, source_wins, unset, ItemState, Items,
  Options, suffix, Counts, count_created, count_updated, count_deleted,
}
use tidy_dav.Dav.Href.{dest_href}
use tidy_dav.Dav.Bidi.Side.{SideItem, data_of}

pub record World (StA StB : Type 0) : Type 0 where
  pub items : Items
  pub a : StA
  pub b : StB
  pub res : Counts

pub data Step (StA StB : Type 0) : Type 0 where
  next : World StA StB → Step StA StB
  stop : World StA StB → Error → Step StA StB

module _ (F T : Collection) where
  unfoldable pub put_copy : T.State → Str → Result Error Str → Result Error Item × T.State
  put_copy to to_href (err e) = (err e, to)
  put_copy to to_href (ok body) =
      let (r, to') = T.put to (record { href = to_href; etag = str ""; body = body }) in
      (map_err (wrap (str "put")) r, to')

  unfoldable pub copy_item : F.State → T.State → SideItem → Str → Result Error Item × T.State
  unfolding put_copy
  copy_item from to si to_href = put_copy to to_href (data_of F from si)

-- The entry after a copy from a to b, and after one from b to a.
abbrev pub copied_to_b : Str → SideItem → Item → ItemState
copied_to_b uid ai stored = record {
  uid = uid;
  src_href = ai.href;
  src_etag = ai.etag;
  src_hash = str "";
  dst_href = stored.href;
  dst_etag = stored.etag;
  dst_hash = str "";
}

abbrev pub copied_to_a : Str → SideItem → Item → ItemState
copied_to_a uid bi stored = record {
  uid = uid;
  src_href = stored.href;
  src_etag = stored.etag;
  src_hash = str "";
  dst_href = bi.href;
  dst_etag = bi.etag;
  dst_hash = str "";
}

abbrev pub is_source_wins : Conflict → Bool
is_source_wins source_wins = true
is_source_wins newest_wins = false
is_source_wins unset = false

-- The state has the item on the other side, and it has not changed on this one.
abbrev pub is_deleted : Str → Bool → Bool
is_deleted other_href changed = not (is_empty other_href) && not changed

module _ {StA StB : Type 0} (w : World StA StB) (uid : Str) where
  -- The end of a copy to b: the entry says where both copies are.
  unfoldable pub record_b : SideItem → (Counts → Counts) → Result Error Item × StB → Step StA StB
  record_b ai count (err e, b') = stop (record w { b = b' }) e
  record_b ai count (ok stored, b') = next (record w {
    b = b';
    items = Dict.insert uid (copied_to_b uid ai stored) w.items;
    res = count w.res;
  })

  unfoldable pub record_a : SideItem → (Counts → Counts) → Result Error Item × StA → Step StA StB
  record_a bi count (err e, a') = stop (record w { a = a' }) e
  record_a bi count (ok stored, a') = next (record w {
    a = a';
    items = Dict.insert uid (copied_to_a uid bi stored) w.items;
    res = count w.res;
  })

  -- The end of a deletion on a.
  unfoldable pub deleted_a : Result Error (Unit {0}) × StA → Step StA StB
  deleted_a (err e, a') = stop (record w { a = a' }) (wrap (str "delete A") e)
  deleted_a (ok _, a') =
      next (record w { a = a'; items = Dict.erase uid w.items; res = count_deleted w.res })

  unfoldable pub deleted_b : Result Error (Unit {0}) × StB → Step StA StB
  deleted_b (err e, b') = stop (record w { b = b' }) (wrap (str "delete B") e)
  deleted_b (ok _, b') =
      next (record w { b = b'; items = Dict.erase uid w.items; res = count_deleted w.res })

module _ (A B : Collection) (o : Options) where
  -- Both items have changed. A wins on tie.
  unfoldable pub winner_is_a : A.State → B.State → SideItem → SideItem → Result Error Bool
  winner_is_a a b ai bi = if is_source_wins o.conflict then ok true else elim o.modified [
    | none ↦ ok true
    | some modified ↦ do
      a_data ← data_of A a ai
      b_data ← data_of B b bi
      ok (not (ltb (modified a_data) (modified b_data)))
  ]

  module _ (w : World A.State B.State) (uid : Str) where
    unfoldable pub copy_to_b : SideItem → Str → (Counts → Counts) → Step A.State B.State
    unfolding record_b
    copy_to_b ai to_href count = record_b w uid ai count (copy_item A B w.a w.b ai to_href)

    unfoldable pub copy_to_a : SideItem → Str → (Counts → Counts) → Step A.State B.State
    unfolding record_a
    copy_to_a bi to_href count = record_a w uid bi count (copy_item B A w.b w.a bi to_href)

    unfoldable pub resolve_conflict : SideItem → SideItem → Result Error Bool → Step A.State B.State
    unfolding copy_to_a copy_to_b
    resolve_conflict ai bi (err e) = stop w e
    resolve_conflict ai bi (ok true) = copy_to_b ai bi.href count_updated
    resolve_conflict ai bi (ok false) = copy_to_a bi ai.href count_updated

    -- By what has changed, on a and on b.
    unfoldable pub on_both : SideItem → SideItem → Bool → Bool → Step A.State B.State
    unfolding resolve_conflict
    on_both ai bi false false = next w
    on_both ai bi true false = copy_to_b ai bi.href count_updated
    on_both ai bi false true = copy_to_a bi ai.href count_updated
    on_both ai bi true true = resolve_conflict ai bi (winner_is_a w.a w.b ai bi)

    -- The item is on side A alone.
    unfoldable pub on_a : SideItem → Option ItemState → Step A.State B.State
    unfolding copy_to_b deleted_a
    on_a ai none = copy_to_b ai (dest_href uid (suffix o)) count_created
    on_a ai (some st) =
        if is_deleted st.dst_href ai.changed
        then deleted_a w uid (A.delete w.a ai.href)
        else copy_to_b ai (dest_href uid (suffix o)) count_created

    -- The item is on side B alone.
    unfoldable pub on_b : SideItem → Option ItemState → Step A.State B.State
    unfolding copy_to_a deleted_b
    on_b bi none = copy_to_a bi (dest_href uid (suffix o)) count_created
    on_b bi (some st) =
        if is_deleted st.src_href bi.changed
        then deleted_b w uid (B.delete w.b bi.href)
        else copy_to_a bi (dest_href uid (suffix o)) count_created

    unfoldable pub by_sides : Option SideItem → Option SideItem → Step A.State B.State
    unfolding on_both on_a on_b
    by_sides (some ai) (some bi) = on_both ai bi ai.changed bi.changed
    by_sides (some ai) none = on_a ai (Dict.lookup uid w.items)
    by_sides none (some bi) = on_b bi (Dict.lookup uid w.items)
    by_sides none none = next (record w { items = Dict.erase uid w.items })

  unfoldable pub reconcile :
      List Str
      → Dict Str SideItem
      → Dict Str SideItem
      → World A.State B.State
      → Str
      → Step A.State B.State
  unfolding by_sides
  reconcile filtered a_side b_side w uid =
      if contains filtered uid
      then next w
      else by_sides w uid (Dict.lookup uid a_side) (Dict.lookup uid b_side)
