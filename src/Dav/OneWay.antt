-- ===== src/Dav/OneWay.antt =====
-- internal/dav/sync.go: `syncOneWay`, the mirror of a source onto a destination.
pub mod Vars
pub mod Item
pub mod Guard
pub mod Steady
mod Loops
mod Ends
mod Closed
pub mod Known
mod Deletes
mod Entries
pub mod Protected
pub mod Keyed
use tidy_dav.Prelude.{
  Str, str, ◌||◌, Option, none, some, List, [], length, is_empty, contains, list_eq, nat_eq,
  if◌then◌else◌,
}
use tidy_dav.Prelude.Dict
use tidy_dav.Prelude.Result.{Result, ok, err}
use tidy_dav.Dav.Types.{
  Error, wrap, unverified_items, ItemMeta, Collection, ItemState, Items, Options, Counts, no_counts,
  count_deleted, guard_vanished, Env,
}
use tidy_dav.Dav.Href.{Index, index_by_href, lookup_meta}
use Vars.{Run, Step, next, stop, each, drop_item, by_src_href, count_dst}
use Item.{mirror_item}

module _ (env : Env) (D : Collection) (idx : Index) where
  -- The end of a DELETE.
  unfoldable pub record_delete :
      Run D.State → Str → Result Error (Unit {0}) × D.State → Step D.State
  unfolding drop_item
  record_delete r uid (err e, dst') = stop (record r { dst = dst' }) (wrap (str "delete") e)
  record_delete r uid (ok _, dst') =
      next (drop_item uid (record r { dst = dst'; res = count_deleted r.res }))

  -- The DELETE is skipped, and not counted, where the copy is gone already.
  unfoldable pub delete_copy : Run D.State → Str → Str → Option ItemMeta → Step D.State
  unfolding record_delete
  delete_copy r uid href none = next (drop_item uid r)
  delete_copy r uid href (some _) = record_delete r uid (D.delete r.dst href)

  unfoldable pub delete_entry : Run D.State → Str → Option ItemState → Step D.State
  unfolding delete_copy
  delete_entry r uid none = next r
  delete_entry r uid (some st) =
      if is_empty st.dst_href
      then next (drop_item uid r)
      else delete_copy r uid st.dst_href (lookup_meta env idx st.dst_href)

  -- The body of the loop over the state, which propagates deletions.
  unfoldable pub delete_item : Run D.State → Str → Step D.State
  unfolding delete_entry
  delete_item r uid =
      if contains r.seen uid || contains r.filtered uid
      then next r
      else delete_entry r uid (Dict.lookup uid r.items)

-- `(Result, error)`, with what the run left in the state and on the destination.
pub record Outcome (St : Type 0) : Type 0 where
  pub res : Counts
  pub error : Option Error
  pub items : Items
  pub dst : St

module _ {St : Type 0} where
  unfoldable pub finish : Run St → Option Error → Outcome St
  finish r e = record { res = r.res; error = e; items = r.items; dst = r.dst }

  -- The objects that could not be read are reported once the rest is done.
  unfoldable pub report : Run St → Option Error
  report r = elim r.unverified_err [ none ↦ none | some e ↦ some (unverified_items r.unverified e) ]

  unfoldable pub start : Items → St → Run St
  start items dst = record {
    items = items;
    dst = dst;
    seen = [];
    filtered = [];
    unverified = 0;
    unverified_err = none;
    res = no_counts;
  }

module _ {St : Type 0} where
  -- What a loop left, at the end of the run.
  unfoldable pub close : Step St → Outcome St
  unfolding finish report
  close (stop r e) = finish r (some e)
  close (next r) = finish r (report r)

  -- A return before the first write.
  unfoldable pub abort : Items → St → Error → Outcome St
  unfolding finish start
  abort items dst e = finish (start items dst) (some e)

  unfoldable pub guarded : Items → St → Option Error → Outcome St → Outcome St
  unfolding abort
  guarded items dst (some e) rest = abort items dst e
  guarded items dst none rest = rest

module _ (env : Env) (S D : Collection) (src : S.State) (o : Options) (uid_of : Str → Str) where
  -- The deletion pass, over the state as the first loop left it.
  unfoldable pub delete_gone : Index → Step D.State → Outcome D.State
  unfolding close
  delete_gone idx (stop r e) = finish r (some e)
  delete_gone idx (next r) = close (each (delete_item env D idx) (env.order (Dict.keys r.items)) r)

  -- Both passes, over the two listings.
  unfoldable pub mirror_all : Items → D.State → List ItemMeta → List ItemMeta → Outcome D.State
  unfolding delete_gone start
  mirror_all items dst src_list dst_list =
      let known = by_src_href items (env.order (Dict.keys items)) [] in
      let idx = index_by_href env dst_list in
      delete_gone idx (each (mirror_item env S D src o uid_of known idx) src_list (start items dst))

  unfoldable pub with_destination :
      Items → D.State → List ItemMeta → Result Error (List ItemMeta) → Outcome D.State
  unfolding mirror_all guarded
  with_destination items dst src_list (err e) = abort items dst (wrap (str "list destination") e)
  with_destination items dst src_list (ok dst_list) =
      guarded items dst (guard_vanished (str "destination") (length dst_list) (count_dst items))
        (mirror_all items dst src_list dst_list)

  unfoldable pub with_source : Items → D.State → Result Error (List ItemMeta) → Outcome D.State
  unfolding with_destination guarded
  with_source items dst (err e) = abort items dst (wrap (str "list source") e)
  with_source items dst (ok src_list) =
      guarded items dst (guard_vanished (str "source") (length src_list) (length items))
        (with_destination items dst src_list (D.list dst))

  unfoldable pub sync_one_way : Items → D.State → Outcome D.State
  unfolding with_source
  sync_one_way items dst = with_source items dst (S.list src)
