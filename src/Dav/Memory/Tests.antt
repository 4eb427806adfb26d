-- ===== src/Dav/Memory/Tests.antt =====
-- Runs of the engine over collections in memory, and its theorems at them.
use tidy_dav.Prelude.{
  ◌≡◌, refl, ◌≢◌, Str, str, true, false, none, some, List, [], ◌∷◌, inl, arith, list_eq, nat_eq,
}
use tidy_dav.Prelude.Dict
use tidy_dav.Dav.Types.{
  Item, ItemState, Items, Options, a_to_b, source_wins, no_counts, guard_vanished, suffix,
}
use tidy_dav.Dav.Keyed.{IsKeyed}
use tidy_dav.Dav.Memory.{memory, broken, plain, plain-IsRange}
use tidy_dav.Dav.OneWay.{Outcome, delete_item, sync_one_way}
use tidy_dav.Dav.Href.{index_by_href, lookup_meta, norm_href, body_hash, dest_href}
use tidy_dav.Dav.OneWay.Vars.{each, count_dst, by_src_href}
use tidy_dav.Dav.OneWay.Item.{item_uid, mirror_item}
use tidy_dav.Dav.OneWay.Protected.{sync_one_way-HasEntry}
use tidy_dav.Dav.Bidi.Side.{SideItem}
use tidy_dav.Dav.Bidi.Item.{World}
use tidy_dav.Dav.Extract.{in_window}
use tidy_dav.Dav.Mirror.{inspect_dst, put_mirror}
use tidy_dav.Dav.OneWay.Steady.{IsSteady, covers, sync_one_way-steady}
use tidy_dav.Dav.OneWay.Guard.{IsBlocked, sync_one_way-IsBlocked}
use tidy_dav.Dav.Sync.{sync, sync-IsKeyed}

abbrev options : Options
options = record {
  direction = a_to_b;
  conflict = source_wins;
  uid = some (λ body. body);
  modified = none;
  href_suffix = str "";
  window_start = 0;
  window_end = 0;
}

-- The source holds one item, of UID "u"; the destination nothing.
abbrev one : List Item
one = record { href = str "/s/u"; etag = str "e1"; body = str "u" } ∷ []

abbrev after_entry : ItemState
after_entry = record {
  uid = str "u";
  src_href = str "/s/u";
  src_etag = str "e1";
  src_hash = str "75";
  dst_href = str "u.ics";
  dst_etag = str "new";
  dst_hash = str "75";
}

-- What a first run leaves: one entry, and one copy.
abbrev pub after_items : Items
after_items = (str "u", after_entry) ∷ []

abbrev copied : List Item
copied = record { href = str "u.ics"; etag = str "new"; body = str "u" } ∷ []

run : List Item → Items → List Item → Outcome (List Item)
unfolding sync_one_way guard_vanished count_dst each mirror_item delete_item by_src_href in_window
    inspect_dst put_mirror body_hash dest_href norm_href index_by_href lookup_meta suffix
    Dict.lookup Dict.insert Dict.erase list_eq nat_eq
run src = sync_one_way plain memory memory src options (λ body. body)

first_run : run one [] [] ≡ record {
  res = record { created = 1; updated = 0; deleted = 0 };
  error = none;
  items = after_items;
  dst = copied;
}
unfolding run
first_run = refl

-- A copy that was removed on the destination comes back.
restored : (run one after_items []).dst ≡ copied
unfolding run
restored = refl

-- The source item is gone: so is its copy, and its entry.
propagated : run [] after_items copied ≡ record {
  res = record { created = 0; updated = 0; deleted = 1 };
  error = none;
  items = [];
  dst = [];
}
unfolding run
propagated = refl

abbrev entry : Str → ItemState
entry uid = record {
  uid = uid;
  src_href = uid;
  src_etag = str "e";
  src_hash = uid;
  dst_href = uid;
  dst_etag = str "e";
  dst_hash = uid;
}

abbrev five : Items
five =
    (str "a", entry (str "a"))
    ∷ (str "b", entry (str "b"))
    ∷ (str "c", entry (str "c"))
    ∷ (str "d", entry (str "d"))
    ∷ (str "e", entry (str "e"))
    ∷ []

sync_one_way-IsBlocked_example :
    IsBlocked five one (sync_one_way plain memory memory [] options (λ body. body) five one)
sync_one_way-IsBlocked_example =
    sync_one_way-IsBlocked plain memory memory [] options (λ body. body) five one
      (inl (refl, omega arith))

five-IsKeyed : IsKeyed five
unfolding Dict.lookup
five-IsKeyed k st h = ground arith

sync-IsKeyed_example : IsKeyed (sync plain memory memory options five one one).items
sync-IsKeyed_example = sync-IsKeyed plain memory memory options five one one five-IsKeyed

steady :
    IsSteady plain
      (by_src_href after_items (plain.order (Dict.keys after_items)) [])
      (index_by_href plain (record { href = str "u.ics"; etag = str "new" } ∷ []))
      after_items
      (record { href = str "/s/u"; etag = str "e1" })
unfolding by_src_href index_by_href lookup_meta Dict.lookup Dict.insert list_eq nat_eq norm_href
steady = record {
  st = after_entry;
  copy = record { href = str "u.ics"; etag = str "new" };
  is_known = refl;
  recorded = refl;
  same_source = refl;
  has_copy = refl;
  listed = refl;
  has_etag = refl;
  same_copy = refl;
  has_hash = refl;
}

all_covered :
    (k : Str)
    → Dict.lookup k after_items ≢ none
    → covers
        (by_src_href after_items (plain.order (Dict.keys after_items)) [])
        (record { href = str "/s/u"; etag = str "e1" } ∷ [])
        k
      ≡ true
unfolding by_src_href covers Dict.lookup Dict.insert
all_covered k h = ground arith

sync_one_way-steady_example :
    let out = sync_one_way plain memory memory one options (λ body. body) after_items copied in
    (out.error ≡ none)
    × (out.res ≡ no_counts)
    × (out.dst ≡ copied)
    × ((k : Str) → Dict.lookup k out.items ≡ Dict.lookup k after_items)
sync_one_way-steady_example =
    sync_one_way-steady plain memory memory one options (λ body. body) plain-IsRange after_items
      copied (record { href = str "/s/u"; etag = str "e1" } ∷ [])
      (record { href = str "u.ics"; etag = str "new" } ∷ []) refl refl (steady, tt) all_covered

after_items-IsKeyed : IsKeyed after_items
unfolding Dict.lookup
after_items-IsKeyed k st h = ground arith

only_entry :
    (uid : Str) (st : ItemState)
    → Dict.lookup uid after_items ≡ some st
    → st.src_href ≡ str "/s/u"
    → uid
      ≡ item_uid plain memory broken one options
          (λ body. body)
          (record { href = str "/s/u"; etag = str "e1" })
          (record { href = str "/s/u"; etag = str "e1"; body = str "u" })
unfolding item_uid Dict.lookup
only_entry uid st h e = ground arith

-- The destination cannot be read: the entry is kept all the same.
sync_one_way-HasEntry_example :
    Dict.lookup
      (item_uid plain memory broken one options
        (λ body. body)
        (record { href = str "/s/u"; etag = str "e1" })
        (record { href = str "/s/u"; etag = str "e1"; body = str "u" }))
      (sync_one_way plain memory broken one options (λ body. body) after_items copied).items
    ≢ none
unfolding item_uid Dict.lookup list_eq nat_eq
sync_one_way-HasEntry_example =
    sync_one_way-HasEntry plain memory broken one options (λ body. body) after_items copied
      (record { href = str "/s/u"; etag = str "e1" } ∷ [])
      (record { href = str "/s/u"; etag = str "e1" })
      (record { href = str "/s/u"; etag = str "e1"; body = str "u" }) after_items-IsKeyed refl
      (inl refl) refl only_entry (λ e. cc e)

-- The item of side A, which has not changed, is gone from side B.
abbrev unchanged : SideItem
unchanged = record {
  href = str "/s/u";
  etag = str "e1";
  uid = str "u";
  changed = false;
  body = none;
}

abbrev world : World (List Item) (List Item)
world = record { items = after_items; a = one; b = []; res = no_counts }
