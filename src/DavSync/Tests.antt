-- ===== src/DavSync/Tests.antt =====
-- internal/davsync/runner.go: runs of a job between two collections in memory.
use tidy_dav.Prelude.{
  ℕ, zero, suc, ap, length, ◌==◌, if◌then◌else◌, ◌≤◌, ◌≡◌, refl, subst, Str, str, true, false,
  Option, none, some, [], ◌∷◌, list_eq, nat_eq, is_empty,
}
use tidy_dav.Prelude.Int.{pos}
use tidy_dav.Prelude.Dict
use tidy_dav.Prelude.Result.{ok}
use tidy_dav.Dav.Types.{Items, Options, a_to_b, unset, guard_vanished, suffix}
use tidy_dav.Dav.OneWay.{sync_one_way}
use tidy_dav.Dav.OneWay.Vars.{count_dst, each}
use tidy_dav.Dav.Memory.{memory, plain}
use tidy_dav.Dav.Memory.Tests.{after_items}
use tidy_dav.Dav.OneWay.{delete_item}
use tidy_dav.Dav.Href.{index_by_href, lookup_meta, norm_href, body_hash, dest_href}
use tidy_dav.Dav.OneWay.Vars.{by_src_href}
use tidy_dav.Dav.OneWay.Item.{mirror_item}
use tidy_dav.Dav.Extract.{in_window}
use tidy_dav.Dav.Mirror.{inspect_dst, put_mirror}
use tidy_dav.Dav.Sync.{sync}
use tidy_dav.DavSync.{
  Env, SyncJob, never, config_error, Remote, acquire, build_sync, read_direction, read_conflict,
}
use tidy_dav.DavSync.Run.{load, run_locked}
use tidy_dav.DavSync.Exclusion.{Flights, Reachable, new, after, begin, count, Reachable-count}
use tidy_dav.DavSync.Persist.{IsJson, run_locked-loses, run_locked-load}

-- A codec: a text as its bytes plus one with a 0 after them, a state as 0, the number of its
-- entries and their texts. `{}` does not begin with a 0 and is read as no entries.
unfoldable write_text : Str → Str → Str
write_text [] rest = 0 ∷ rest
write_text (c ∷ s) rest = suc c ∷ write_text s rest

unfoldable read_text : Str → Str × Str
read_text [] = ([], [])
read_text (zero ∷ s) = ([], s)
read_text (suc c ∷ s) = let (x, rest) = read_text s in (c ∷ x, rest)

read_text-write_text : (s rest : Str) → read_text (write_text s rest) ≡ (s, rest)
unfolding read_text write_text
read_text-write_text [] rest = refl
read_text-write_text (c ∷ s) rest = rw (read_text-write_text s rest) refl

unfoldable write_items : Items → Str
unfolding write_text
write_items [] = []
write_items ((uid, i) ∷ items) =
    let end : Str =
      write_text i.dst_href (write_text i.dst_etag (write_text i.dst_hash (write_items items))) in
    write_text uid
      (write_text i.uid (write_text i.src_href (write_text i.src_etag (write_text i.src_hash end))))

unfoldable read_items : ℕ → Str → Items
unfolding read_text
read_items zero s = []
read_items (suc n) s0 =
    let (key, s1) = read_text s0 in
    let (uid, s2) = read_text s1 in
    let (src_href, s3) = read_text s2 in
    let (src_etag, s4) = read_text s3 in
    let (src_hash, s5) = read_text s4 in
    let (dst_href, s6) = read_text s5 in
    let (dst_etag, s7) = read_text s6 in
    let (dst_hash, s8) = read_text s7 in
    (
      key,
      record {
        uid = uid;
        src_href = src_href;
        src_etag = src_etag;
        src_hash = src_hash;
        dst_href = dst_href;
        dst_etag = dst_etag;
        dst_hash = dst_hash;
      },
    )
    ∷ read_items n s8

read_items-write_items : (items : Items) → read_items (length items) (write_items items) ≡ items
unfolding read_items write_items
read_items-write_items [] = refl
read_items-write_items (i ∷ items) =
    rw
      (
        read_text-write_text,
        read_text-write_text,
        read_text-write_text,
        read_text-write_text,
        read_text-write_text,
        read_text-write_text,
        read_text-write_text,
        read_text-write_text,
        read_items-write_items items,
      )
      refl

unfoldable encode : Items → Option Str
unfolding write_items
encode items = some (0 ∷ length items ∷ write_items items)

unfoldable decode : Str → Option Items
unfolding read_items
decode [] = none
decode (zero ∷ []) = none
decode (zero ∷ n ∷ s) = some (read_items n s)
decode (suc c ∷ s) = some []

abbrev server : Remote
server = record { collection = memory; server = [] }

-- The source, with one item.
abbrev source : Remote
source = record {
  collection = memory;
  server = record { href = str "/s/u"; etag = str "e1"; body = str "u" } ∷ [];
}

abbrev env : Env
env = record {
  dav = plain;
  encode = encode;
  decode = decode;
  calendar_uid = λ s. s;
  calendar_modified = λ s. 0;
  contact_uid = λ s. s;
  contact_modified = λ s. 0;
  parse_window = λ a b. ok (0, 0);
  new_caldav = λ url u p. ok (if url == str "a" then source else server);
  new_carddav = λ url u p. ok server;
}

encode-text : (items : Items) → (s : Str) → encode items ≡ some s → is_empty s ≡ false
unfolding encode
encode-text items [] h = cc
encode-text items (c ∷ s) h = refl

decode-encode : (items : Items) → (s : Str) → encode items ≡ some s → decode s ≡ some items
unfolding decode encode
decode-encode items s h =
    let same : 0 ∷ length items ∷ write_items items ≡ s = cc in
    subst (λ u. decode u ≡ some items) same (ap (λ x. some x) (read_items-write_items items))

env-IsJson : IsJson env
env-IsJson = record {
  back = λ items s texts h. (items, decode-encode items s h, λ uid. refl);
  text = encode-text;
}

abbrev job : SyncJob
job = record {
  id = str "j";
  kind = str "caldav";
  direction = str "a-to-b";
  conflict = [];
  a_url = str "a";
  a_username = [];
  a_password = [];
  b_url = str "b";
  b_username = [];
  b_password = [];
  interval_seconds = pos 60;
  window_start = [];
  window_end = [];
  state = str "{}";
  last_run_at = 5;
  last_status = never;
}

abbrev taken : Flights
taken = record { running = (str "j", true) ∷ []; flights = str "j" ∷ [] }

taken-Reachable : Reachable taken
unfolding acquire Dict.lookup Dict.insert
taken-Reachable = after _ _ new (begin (str "j") (record { running = []; flights = [] }) refl)

Reachable-count_example :
    (count (str "j") (str "j" ∷ []) ≤ 1)
    × ((acquire (str "j") ((str "j", true) ∷ [])).0 ≡ true → count (str "j") (str "j" ∷ []) ≡ 0)
Reachable-count_example = Reachable-count taken taken-Reachable (str "j")

-- The state that a first run has written.
abbrev written : SyncJob
written = record job { state = 0 ∷ 1 ∷ write_items after_items }

load-written : load env written ≡ after_items
unfolding load decode write_items
load-written = refl

run_locked-loses_example :
    ((run_locked env none 9 (record written { kind = str "webdav" })).state ≡ str "{}")
    × ((run_locked env none 9 (record written { kind = str "webdav" })).last_status
        ≡ config_error (str "invalid kind"))
    × (load env (run_locked env none 9 (record written { kind = str "webdav" })) ≡ [])
unfolding build_sync list_eq nat_eq read_direction read_conflict decode
run_locked-loses_example =
    run_locked-loses env none 9 (record written { kind = str "webdav" }) (str "invalid kind") refl
      refl refl

abbrev options : Options
options = record {
  direction = a_to_b;
  conflict = unset;
  uid = some (λ s. s);
  modified = some (λ s. 0);
  href_suffix = str ".ics";
  window_start = 0;
  window_end = 0;
}

run_locked-load_example :
    Dict.lookup (str "u") (load env (run_locked env none 9 job))
    ≡ Dict.lookup (str "u") (sync plain memory memory options [] source.server []).items
unfolding build_sync read_direction read_conflict load encode decode write_items sync sync_one_way
    guard_vanished count_dst each mirror_item delete_item by_src_href in_window inspect_dst
    put_mirror body_hash dest_href norm_href index_by_href lookup_meta suffix Dict.lookup
    Dict.insert Dict.erase list_eq nat_eq
run_locked-load_example =
    run_locked-load env 9 env-IsJson job source server options _ (str "u") refl
      ((refl, refl, refl, refl, refl, refl, refl, refl), tt) refl
