-- ===== src/Dav/OneWay/Steady.antt =====
-- internal/dav/sync.go: a run of `syncOneWay` over two sides that nobody has touched.
use tidy_dav.Prelude.{
  ℕ, ◌≡◌, refl, sym, ◌∙◌, ◌≢◌, Str, str, Bool, true, false, ◌||◌, none, some, List, [], ◌∷◌, length,
  arith, contains, contains-cons_self, contains-cons_of, is_empty, ◌==◌, list_eq, nat_eq, All,
}
use tidy_dav.Prelude.Dict
use tidy_dav.Prelude.Dict.{Dict}
use tidy_dav.Prelude.Result.{ok}
use tidy_dav.Dav.Types.{
  ItemMeta, Collection, ItemState, Items, Options, no_counts, guard_vanished, Env, IsRange,
}
use tidy_dav.Dav.Href.{Index, index_by_href, lookup_meta}
use tidy_dav.Dav.Mirror.{inspect_dst}
use tidy_dav.Dav.OneWay.{finish, start, delete_item, delete_gone, close, mirror_all, sync_one_way}
use tidy_dav.Dav.OneWay.Vars.{Run, next, each, save, mark_seen, by_src_href, count_dst}
use tidy_dav.Dav.OneWay.Item.{mirror_item}

-- Both sides list the item with the ETags of the state, which has a fingerprint of the copy.
pub record IsSteady (env : Env) (known : Dict Str ItemState) (idx : Index) (items : Items)
    (meta : ItemMeta) : Type 0 where
  pub st : ItemState
  pub copy : ItemMeta
  pub is_known : Dict.lookup meta.href known ≡ some st
  pub recorded : Dict.lookup st.uid items ≡ some st
  pub same_source : st.src_etag ≡ meta.etag
  pub has_copy : is_empty st.dst_href ≡ false
  pub listed : lookup_meta env idx st.dst_href ≡ some copy
  pub has_etag : is_empty copy.etag ≡ false
  pub same_copy : copy.etag ≡ st.dst_etag
  pub has_hash : is_empty st.dst_hash ≡ false

-- Some entry of the listing is, by the state, the item of this UID.
unfoldable pub covers : Dict Str ItemState → List ItemMeta → Str → Bool
covers known [] k = false
covers known (m ∷ ms) k =
    elim (Dict.lookup m.href known) [ none ↦ false | some st ↦ k == st.uid ] || covers known ms k

-- The run so far has written nothing.
record IsQuiet {St : Type 0} (items : Items) (dst : St) (r : Run St) : Type 0 where
  same : (k : Str) → Dict.lookup k r.items ≡ Dict.lookup k items
  dst_kept : r.dst ≡ dst
  no_writes : r.res ≡ no_counts
  all_verified : r.unverified_err ≡ none

save-IsQuiet :
    {St : Type 0} (items : Items) (dst : St) (r : Run St) (uid : Str) (st : ItemState)
    → IsQuiet items dst r
    → Dict.lookup uid items ≡ some st
    → IsQuiet items dst (save uid st (mark_seen uid r))
unfolding save mark_seen
save-IsQuiet items dst r uid st q found = record {
  same = λ k. rw Dict.lookup-insert (ground (arith, q.same k));
  dst_kept = q.dst_kept;
  no_writes = q.no_writes;
  all_verified = q.all_verified;
}

module _ (env : Env) (S D : Collection) (src : S.State) (o : Options) (uid_of : Str → Str) where
  module _ (known : Dict Str ItemState) (idx : Index) where
    mirror_item-steady :
        (r : Run D.State) (items : Items) (meta : ItemMeta) (h : IsSteady env known idx items meta)
        → Dict.lookup h.st.uid r.items ≡ some h.st
        → mirror_item env S D src o uid_of known idx r meta
          ≡ next (save h.st.uid h.st (mark_seen h.st.uid r))
    unfolding mirror_item inspect_dst
    mirror_item-steady r items meta h recorded = ground (
      arith, h.is_known, h.same_source, h.has_copy, h.listed, h.has_etag, h.same_copy, h.has_hash,
    )

    -- The loop over the source listing.
    each-steady :
        (items : Items) (dst : D.State) (ms : List ItemMeta) (r : Run D.State)
        → IsQuiet items dst r
        → All (IsSteady env known idx items) ms
        → (r' : Run D.State) × (each (mirror_item env S D src o uid_of known idx) ms r ≡ next r')
          × IsQuiet items dst r'
          × ((k : Str) → contains r'.seen k ≡ (covers known ms k || contains r.seen k))
    unfolding each covers save mark_seen
    each-steady items dst [] r q h = (r, refl, q, λ k. refl)
    each-steady items dst (m ∷ ms) r q (h, hs) =
        let recorded = q.same h.st.uid ∙ h.recorded in
        let r1 = save h.st.uid h.st (mark_seen h.st.uid r) in
        let q1 = save-IsQuiet items dst r h.st.uid h.st q h.recorded in
        let (r', e, q', s) = each-steady items dst ms r1 q1 hs in
        (r', rw (mirror_item-steady r items m h recorded, each) e, q', λ k. ground (arith, s k))

  delete_item-seen :
      (idx : Index) (r : Run D.State) (k : Str)
      → contains r.seen k ≡ true
      → delete_item env D idx r k ≡ next r
  unfolding delete_item
  delete_item-seen idx r k h = ground arith

  delete_seen :
      (idx : Index) (ks : List Str) (r : Run D.State)
      → ((k : Str) → contains ks k ≡ true → contains r.seen k ≡ true)
      → each (delete_item env D idx) ks r ≡ next r
  unfolding each
  delete_seen idx [] r h = refl
  delete_seen idx (k ∷ ks) r h =
      rw (delete_item-seen idx r k (h k (contains-cons_self k ks)), each)
        (delete_seen idx ks r (λ j m. h j (contains-cons_of j k ks m)))

  -- The deletion pass finds every item of the state among those that it saw.
  delete_gone-quiet :
      IsRange env
      → (idx : Index) (items : Items) (dst : D.State) (r : Run D.State) → IsQuiet items dst r
      → ((k : Str) → Dict.lookup k items ≢ none → contains r.seen k ≡ true)
      → delete_gone env S D src o uid_of idx (next r) ≡ finish r none
  unfolding delete_gone
  delete_gone-quiet range idx items dst r q h =
      let listed = λ (k : Str) (m : contains (env.order (Dict.keys r.items)) k ≡ true).
        (Dict.contains-keys r.items k).0 (sym (range.contains-order (Dict.keys r.items) k) ∙ m) in
      rw
        (
          delete_seen idx (env.order (Dict.keys r.items)) r
              (λ k m. h k (λ e. listed k m (q.same k ∙ e))),
          delete_gone,
          close,
        )
        (ground (arith, q.all_verified))

  mirror_all-steady :
      IsRange env
      → (items : Items) (dst : D.State) (ms dst_list : List ItemMeta)
      → All
          (IsSteady env
            (by_src_href items (env.order (Dict.keys items)) [])
            (index_by_href env dst_list)
            items)
          ms
      → ((k : Str)
          → Dict.lookup k items ≢ none
          → covers (by_src_href items (env.order (Dict.keys items)) []) ms k ≡ true)
      → (r : Run D.State) × (mirror_all env S D src o uid_of items dst ms dst_list ≡ finish r none)
        × IsQuiet items dst r
  unfolding mirror_all start
  mirror_all-steady range items dst ms dst_list h covered =
      let known = by_src_href items (env.order (Dict.keys items)) [] in
      let idx = index_by_href env dst_list in
      let q : IsQuiet items dst (start items dst) = record {
        same = λ k. refl;
        dst_kept = refl;
        no_writes = refl;
        all_verified = refl;
      } in
      let (r, e, q', s) = each-steady known idx items dst ms (start items dst) q h in
      (
        r,
        rw (e, mirror_all)
            (delete_gone-quiet range idx items dst r q'
              (λ k found. ground (arith, s k, covered k found))),
        q',
      )

no_index : (env : Env) (href : Str) → lookup_meta env (index_by_href env []) href ≡ none
unfolding lookup_meta index_by_href Dict.lookup
no_index env href = ground arith

guard-some :
    (side : Str) (m : ItemMeta) (ms : List ItemMeta) (known : ℕ)
    → guard_vanished side (length (m ∷ ms)) known ≡ none
unfolding guard_vanished
guard-some side m ms known = ground arith

-- Neither guard stops a steady run: a listing is empty only if the state is.
steady_source :
    (known : Dict Str ItemState) (items : Items) (ms : List ItemMeta)
    → ((k : Str) → Dict.lookup k items ≢ none → covers known ms k ≡ true)
    → guard_vanished (str "source") (length ms) (length items) ≡ none
unfolding guard_vanished covers Dict.lookup
steady_source known [] [] h = refl
steady_source known ((k, st) ∷ items) [] h = ground (arith, h k)
steady_source known items (m ∷ ms) h = guard-some (str "source") m ms (length items)

steady_destination :
    (env : Env) (known : Dict Str ItemState) (items : Items) (ms ds : List ItemMeta)
    → All (IsSteady env known (index_by_href env ds) items) ms
    → ((k : Str) → Dict.lookup k items ≢ none → covers known ms k ≡ true)
    → guard_vanished (str "destination") (length ds) (count_dst items) ≡ none
steady_destination env known items ms (d ∷ ds) h c =
    guard-some (str "destination") d ds (count_dst items)
steady_destination env known [] ms [] h c = unfold guard_vanished count_dst in refl
steady_destination env known ((k, st) ∷ items) [] [] h c =
    unfold guard_vanished covers Dict.lookup in ground (arith, c k)
steady_destination env known ((k, st) ∷ items) (m ∷ ms) [] (h, hs) c =
    cc (h.listed, no_index env h.st.dst_href)

-- The order of a range over a map is any. If the source lists exactly items of the state, with the
-- ETags recorded there, every item of the state is among them, and the destination lists the copy
-- of each with the recorded ETag and a recorded fingerprint, then the run succeeds without a
-- write: the destination and the counters are untouched, and every entry of the state reads as
-- before.
pub sync_one_way-steady :
    (env : Env) (S D : Collection) (src : S.State) (o : Options) (uid_of : Str → Str)
    → IsRange env
    → (items : Items) (dst : D.State) (ms ds : List ItemMeta) → S.list src ≡ ok ms
    → D.list dst ≡ ok ds
    → All
        (IsSteady env
          (by_src_href items (env.order (Dict.keys items)) [])
          (index_by_href env ds)
          items)
        ms
    → ((k : Str)
        → Dict.lookup k items ≢ none
        → covers (by_src_href items (env.order (Dict.keys items)) []) ms k ≡ true)
    → let out = sync_one_way env S D src o uid_of items dst in
      (out.error ≡ none)
      × (out.res ≡ no_counts)
      × (out.dst ≡ dst)
      × ((k : Str) → Dict.lookup k out.items ≡ Dict.lookup k items)
unfolding sync_one_way finish
sync_one_way-steady env S D src o uid_of range items dst ms ds ls ld h c =
    let known = by_src_href items (env.order (Dict.keys items)) [] in
    let gs = steady_source known items ms c in
    let gd = steady_destination env known items ms ds h c in
    let (r, e, q) = mirror_all-steady env S D src o uid_of range items dst ms ds h c in
    rw (ls, gs, ld, gd, e, sync_one_way) (refl, q.no_writes, q.dst_kept, q.same)
