-- ===== src/Dav/Types.antt =====
-- internal/dav/dav.go: items, collections, the persisted state, options and results; and the
-- error values of the engine.
use tidy_dav.Prelude.{
  ℕ, ◌+◌, ◌≡◌, Str, str, Bool, true, false, ◌&&◌, ◌||◌, not, Option, none, some, List, eqb, leb,
  is_empty, contains, list_eq, nat_eq, if◌then◌else◌,
}
use tidy_dav.Prelude.Dict.{Dict}
use tidy_dav.Prelude.Result.{Result}
unfoldable pub use tidy_dav.Prelude.Clock.{Time, is_zero}

-- The errors of the engine. `remote` is an error of a client or its server; `wrap` is
-- `fmt.Errorf("…: %w")` with its context.
pub data Error : Type 0 where
  uid_required : Error
  unknown_direction : Str → Error
  collection_vanished : Str → ℕ → Error
  remote : Str → Error
  wrap : Str → Error → Error
  unverified_items : ℕ → Error → Error

-- `errors.Is(err, ErrCollectionVanished)`
unfoldable pub is_vanished : Error → Bool
is_vanished (collection_vanished side known) = true
is_vanished (wrap context e) = is_vanished e
is_vanished (unverified_items n e) = is_vanished e
is_vanished _ = false

pub record ItemMeta : Type 0 where
  pub href : Str
  pub etag : Str

pub record Item : Type 0 where
  pub href : Str
  pub etag : Str
  pub body : Str

-- The interface `Collection`, over an unknown state of the server. A read leaves that state as it
-- is and may fail; a write may change it also where it fails.
pub record Collection : Type 1 where
  pub State : Type 0
  pub list : State → Result Error (List ItemMeta)
  pub get : State → Str → Result Error Item
  pub put : State → Item → Result Error Item × State
  pub delete : State → Str → Result Error (Unit {0}) × State

pub data Direction : Type 0 where
  a_to_b b_to_a bidirectional : Direction
  other : Str → Direction

pub data Conflict : Type 0 where
  newest_wins source_wins : Conflict
  unset : Conflict

pub record ItemState : Type 0 where
  pub uid : Str
  pub src_href : Str
  pub src_etag : Str
  pub src_hash : Str
  pub dst_href : Str
  pub dst_etag : Str
  pub dst_hash : Str

-- The zero value, which a lookup of a missing key yields in Go.
abbrev pub no_item : ItemState
no_item = record {
  uid = str "";
  src_href = str "";
  src_etag = str "";
  src_hash = str "";
  dst_href = str "";
  dst_etag = str "";
  dst_hash = str "";
}

-- `State.Items`, by UID.
abbrev pub Items : Type 0
Items = Dict Str ItemState

pub record Options : Type 0 where
  pub direction : Direction
  pub conflict : Conflict
  pub uid : Option (Str → Str)
  pub modified : Option (Str → Time)
  pub href_suffix : Str
  pub window_start : Time
  pub window_end : Time

unfoldable pub suffix : Options → Str
suffix o = if is_empty o.href_suffix then str ".ics" else o.href_suffix

unfoldable pub has_window : Options → Bool
has_window o = not (is_zero o.window_start) || not (is_zero o.window_end)

-- `Result`: what a run changed.
pub record Counts : Type 0 where
  pub created : ℕ
  pub updated : ℕ
  pub deleted : ℕ

abbrev pub no_counts : Counts
no_counts = record { created = 0; updated = 0; deleted = 0 }

abbrev pub count_created : Counts → Counts
count_created c = record c { created = c.created + 1 }

abbrev pub count_updated : Counts → Counts
count_updated c = record c { updated = c.updated + 1 }

abbrev pub count_deleted : Counts → Counts
count_deleted c = record c { deleted = c.deleted + 1 }

abbrev pub vanish_guard_threshold : ℕ
vanish_guard_threshold = 5

unfoldable pub guard_vanished : Str → ℕ → ℕ → Option Error
guard_vanished side listed known =
    if eqb listed 0 && leb vanish_guard_threshold known
    then some (collection_vanished side known)
    else none

-- What the engine calls outside this repository: SHA-256, `url.Parse(…).Path`, `url.PathUnescape`
-- and `path.Clean`, the DTSTART values that go-ical reads from the components of a body (`none` if
-- the body does not parse); and the order in which Go ranges over the keys of a map.
pub record Env : Type 0 where
  pub sha256 : Str → Str
  pub url_path : Str → Option Str
  pub path_unescape : Str → Option Str
  pub path_clean : Str → Str
  pub starts : Str → Option (List Time)
  pub order : List Str → List Str

-- What a range over a map promises: each key comes, and nothing else.
pub record IsRange (env : Env) : Type 0 where
  pub contains-order : (ks : List Str) (k : Str) → contains (env.order ks) k ≡ contains ks k
