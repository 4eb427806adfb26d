-- ===== src/Dav/Bidi/Entries.antt =====
-- internal/dav/sync_bidi.go: what a step of `syncBidirectional` does to the state.
use tidy_dav.Prelude.{
  ◌≡◌, refl, Str, Bool, true, false, Option, none, some, List, contains, list_eq, nat_eq, inl, inr,
  Bool-cases,
}
use tidy_dav.Prelude.Dict
use tidy_dav.Prelude.Dict.{Dict}
use tidy_dav.Prelude.Result.{Result, ok, err}
use tidy_dav.Dav.Types.{
  Error, Item, Collection, ItemState, Items, Counts, count_created, count_updated, Options, suffix,
  Env,
}
use tidy_dav.Dav.Href.{dest_href}
use tidy_dav.Dav.Bidi.Side.{SideItem, Resolved}
use tidy_dav.Dav.Bidi.Item.{
  World, copy_item, record_a, record_b, deleted_a, deleted_b, winner_is_a, copy_to_a, copy_to_b,
  resolve_conflict, on_both, is_deleted, on_a, on_b, by_sides, reconcile,
}
use tidy_dav.Dav.Bidi.Loops.{Holds, Holds-if, each-Holds, close-Holds}
use tidy_dav.Dav.Bidi.{each, start, all_uids, reconcile_all}

-- A property that holds on when the entry of this UID is set, under its UID, or dropped.
pub record Keeps {ℓ} (P : Items → Type ℓ) (uid : Str) : Type ℓ where
  pub insert :
      (items : Items) (st : ItemState) → P items → st.uid ≡ uid → P (Dict.insert uid st items)
  pub erase : (items : Items) → P items → P (Dict.erase uid items)

module _ {ℓ} {StA StB : Type 0} (P : Items → Type ℓ) (w : World StA StB) (uid : Str)
    (keeps : Keeps P uid) (h : P w.items) where
  record_b-items :
      (ai : SideItem) (count : Counts → Counts) (r : Result Error Item × StB)
      → Holds (λ v. P v.items) (record_b w uid ai count r)
  unfolding record_b
  record_b-items ai count (err e, b') = h
  record_b-items ai count (ok stored, b') = keeps.insert w.items _ h refl

  record_a-items :
      (bi : SideItem) (count : Counts → Counts) (r : Result Error Item × StA)
      → Holds (λ v. P v.items) (record_a w uid bi count r)
  unfolding record_a
  record_a-items bi count (err e, a') = h
  record_a-items bi count (ok stored, a') = keeps.insert w.items _ h refl

  deleted_a-items : (r : Result Error (Unit {0}) × StA) → Holds (λ v. P v.items) (deleted_a w uid r)
  unfolding deleted_a
  deleted_a-items (err e, a') = h
  deleted_a-items (ok _, a') = keeps.erase w.items h

  deleted_b-items : (r : Result Error (Unit {0}) × StB) → Holds (λ v. P v.items) (deleted_b w uid r)
  unfolding deleted_b
  deleted_b-items (err e, b') = h
  deleted_b-items (ok _, b') = keeps.erase w.items h

module _ {ℓ} (A B : Collection) (o : Options) (P : Items → Type ℓ) (w : World A.State B.State)
    (uid : Str) (keeps : Keeps P uid) (h : P w.items) where
  copy_to_b-items :
      (ai : SideItem) (href : Str) (count : Counts → Counts)
      → Holds (λ v. P v.items) (copy_to_b A B o w uid ai href count)
  unfolding copy_to_b
  copy_to_b-items ai href count =
      record_b-items P w uid keeps h ai count (copy_item A B w.a w.b ai href)

  copy_to_a-items :
      (bi : SideItem) (href : Str) (count : Counts → Counts)
      → Holds (λ v. P v.items) (copy_to_a A B o w uid bi href count)
  unfolding copy_to_a
  copy_to_a-items bi href count =
      record_a-items P w uid keeps h bi count (copy_item B A w.b w.a bi href)

  resolve_conflict-items :
      (ai bi : SideItem) (r : Result Error Bool)
      → Holds (λ v. P v.items) (resolve_conflict A B o w uid ai bi r)
  unfolding resolve_conflict
  resolve_conflict-items ai bi (err e) = h
  resolve_conflict-items ai bi (ok true) = copy_to_b-items ai bi.href count_updated
  resolve_conflict-items ai bi (ok false) = copy_to_a-items bi ai.href count_updated

  on_both-items :
      (ai bi : SideItem) (p q : Bool) → Holds (λ v. P v.items) (on_both A B o w uid ai bi p q)
  unfolding on_both
  on_both-items ai bi false false = h
  on_both-items ai bi true false = copy_to_b-items ai bi.href count_updated
  on_both-items ai bi false true = copy_to_a-items bi ai.href count_updated
  on_both-items ai bi true true = resolve_conflict-items ai bi (winner_is_a A B o w.a w.b ai bi)

  on_a-items :
      (ai : SideItem) (st : Option ItemState) → Holds (λ v. P v.items) (on_a A B o w uid ai st)
  unfolding on_a
  on_a-items ai none = copy_to_b-items ai (dest_href uid (suffix o)) count_created
  on_a-items ai (some st) =
      Holds-if (λ v. P v.items) (is_deleted st.dst_href ai.changed) _ _
        (deleted_a-items P w uid keeps h (A.delete w.a ai.href))
        (copy_to_b-items ai (dest_href uid (suffix o)) count_created)

  on_b-items :
      (bi : SideItem) (st : Option ItemState) → Holds (λ v. P v.items) (on_b A B o w uid bi st)
  unfolding on_b
  on_b-items bi none = copy_to_a-items bi (dest_href uid (suffix o)) count_created
  on_b-items bi (some st) =
      Holds-if (λ v. P v.items) (is_deleted st.src_href bi.changed) _ _
        (deleted_b-items P w uid keeps h (B.delete w.b bi.href))
        (copy_to_a-items bi (dest_href uid (suffix o)) count_created)

  pub by_sides-items :
      (ai bi : Option SideItem) → Holds (λ v. P v.items) (by_sides A B o w uid ai bi)
  unfolding by_sides
  by_sides-items (some ai) (some bi) = on_both-items ai bi ai.changed bi.changed
  by_sides-items (some ai) none = on_a-items ai (Dict.lookup uid w.items)
  by_sides-items none (some bi) = on_b-items bi (Dict.lookup uid w.items)
  by_sides-items none none = keeps.erase w.items h

-- Whatever a run does, it does by such steps: a property that every UID keeps outlasts the run.
module _ {ℓ} (env : Env) (A B : Collection) (o : Options) (uid_of : Str → Str) (P : Items → Type ℓ)
    (items : Items) (a : A.State) (b : B.State) where
  reconcile-items :
      (filtered : List Str) (a_side b_side : Dict Str SideItem)
      → ((uid : Str) → contains filtered uid ≡ false → Keeps P uid)
      → (w : World A.State B.State) (uid : Str) → P w.items
      → Holds (λ v. P v.items) (reconcile A B o filtered a_side b_side w uid)
  unfolding reconcile
  reconcile-items filtered a_side b_side keeps w uid h = elim (Bool-cases (contains filtered uid)) [
    | inl out ↦ rw out h
    | inr inside ↦ rw inside (
        by_sides-items A B o P w uid (keeps uid inside) h (Dict.lookup uid a_side)
          (Dict.lookup uid b_side))
  ]

  pub reconcile_all-items :
      (a_side : Dict Str SideItem) (rb : Resolved)
      → ((uid : Str) → contains rb.filtered uid ≡ false → Keeps P uid)
      → P items
      → P (reconcile_all env A B o uid_of items a b a_side rb).items
  unfolding reconcile_all
  reconcile_all-items a_side rb keeps h =
      let step = reconcile A B o rb.filtered a_side rb.side in
      let uids = env.order (all_uids a_side rb.side items) in
      close-Holds P (each step uids (start items a b)) (
        each-Holds (λ w. P w.items) step
          (λ w uid k. reconcile-items rb.filtered a_side rb.side keeps w uid k) uids
          (start items a b) h)
