-- ===== src/Dav/OneWay/Vars.antt =====
-- internal/dav/sync.go: the variables of `syncOneWay`, its loops with an early return, and the
-- first loop over the state.
use tidy_dav.Prelude.{
  ℕ, ◌+◌, Str, str, Option, none, some, List, [], ◌∷◌, is_empty, list_eq, nat_eq, if◌then◌else◌,
}
use tidy_dav.Prelude.Dict
use tidy_dav.Prelude.Dict.{Dict}
use tidy_dav.Dav.Types.{Error, ItemState, Items, Counts}
use tidy_dav.Dav.Mirror.{dst_ok, Verdict, Stored}

-- The variables of a run: the state under repair, the destination, the sets `seen` and `filtered`,
-- the unreadable destination items and the counters.
pub record Run (St : Type 0) : Type 0 where
  pub items : Items
  pub dst : St
  pub seen : List Str
  pub filtered : List Str
  pub unverified : ℕ
  pub unverified_err : Option Error
  pub res : Counts

-- Go on, or return the error at once with what was done so far.
pub data Step (St : Type 0) : Type 0 where
  next : Run St → Step St
  stop : Run St → Error → Step St

-- What is known of the destination copy before the source body is read: `checkedUID` and the
-- verdict, or the zero values.
pub record Checked : Type 0 where
  pub uid : Str
  pub verdict : Verdict

abbrev pub unchecked : Checked
unchecked = record {
  uid = str "";
  verdict = record { status = dst_ok; etag = str ""; hash = str "" };
}

-- `continue`, or fall through to the source body.
pub data Prior (St : Type 0) : Type 0 where
  settled : Run St → Prior St
  unsettled : Checked → Prior St

-- `for _, x := range xs`, with an early return.
unfoldable pub each {ℓ} :
    {A : Type ℓ} {St : Type 0} → (Run St → A → Step St) → List A → Run St → Step St
each step [] r = next r
each step (x ∷ xs) r = elim (step r x) [ next r' ↦ each step xs r' | stop r' e ↦ stop r' e ]

module _ {St : Type 0} where
  unfoldable pub note_unverified : Error → Run St → Run St
  note_unverified e r = record r {
    unverified = r.unverified + 1;
    unverified_err = elim r.unverified_err [ none ↦ some e | some first ↦ some first ];
  }

  unfoldable pub mark_seen : Str → Run St → Run St
  mark_seen uid r = record r { seen = uid ∷ r.seen }

  unfoldable pub mark_filtered : Str → Run St → Run St
  mark_filtered uid r = record r { filtered = uid ∷ r.filtered }

  unfoldable pub save : Str → ItemState → Run St → Run St
  save uid st r = record r { items = Dict.insert uid st r.items }

  unfoldable pub drop_item : Str → Run St → Run St
  drop_item uid r = record r { items = Dict.erase uid r.items }

abbrev pub with_dst : ItemState → Str → Str → ItemState
with_dst st etag hash = record st { dst_etag = etag; dst_hash = hash }

abbrev pub with_stored : ItemState → Stored → ItemState
with_stored st s = record st { dst_href = s.href; dst_etag = s.etag; dst_hash = s.hash }

-- The first loop over the state: who lives at which source href.
unfoldable pub add_known : Option ItemState → Dict Str ItemState → Dict Str ItemState
add_known none acc = acc
add_known (some st) acc = if is_empty st.src_href then acc else Dict.insert st.src_href st acc

unfoldable pub by_src_href : Items → List Str → Dict Str ItemState → Dict Str ItemState
unfolding add_known
by_src_href items [] acc = acc
by_src_href items (uid ∷ uids) acc = by_src_href items uids (add_known (Dict.lookup uid items) acc)

-- The same loop: how many items have a destination copy.
unfoldable pub count_dst : Items → ℕ
count_dst [] = 0
count_dst ((uid, st) ∷ items) = (if is_empty st.dst_href then 0 else 1) + count_dst items
