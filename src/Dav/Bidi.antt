-- ===== src/Dav/Bidi.antt =====
-- internal/dav/sync_bidi.go: `syncBidirectional`.
pub mod Side
pub mod Item
mod Loops
mod Entries
pub mod Deletes
pub mod Keyed
use tidy_dav.Prelude.{
  ℕ, Str, str, Option, none, some, List, [], ◌∷◌, length, is_empty, contains, list_eq, nat_eq,
  if◌then◌else◌,
}
use tidy_dav.Prelude.Dict
use tidy_dav.Prelude.Dict.{Dict}
use tidy_dav.Prelude.Result.{Result, ok, err}
use tidy_dav.Dav.Types.{
  Error, wrap, ItemMeta, Collection, Items, Options, Counts, no_counts, guard_vanished, Env,
}
use Side.{HrefState, SideItem, Resolved, resolve_side, known_src, known_dst}
use Item.{World, Step, next, stop, reconcile}

-- `(Result, error)`, with what the run left in the state and on both sides.
pub record Outcome (StA StB : Type 0) : Type 0 where
  pub res : Counts
  pub error : Option Error
  pub items : Items
  pub a : StA
  pub b : StB

-- A set as a list of its elements.
unfoldable pub add_all : List Str → List Str → List Str
add_all [] set = set
add_all (u ∷ us) set = add_all us (if contains set u then set else u ∷ set)

module _ {StA StB : Type 0} where
  unfoldable pub finish : World StA StB → Option Error → Outcome StA StB
  finish w e = record { res = w.res; error = e; items = w.items; a = w.a; b = w.b }

  unfoldable pub start : Items → StA → StB → World StA StB
  start items a b = record { items = items; a = a; b = b; res = no_counts }

  unfoldable pub abort : Items → StA → StB → Error → Outcome StA StB
  unfolding finish start
  abort items a b e = finish (start items a b) (some e)

  unfoldable pub guarded : Items → StA → StB → Option Error → Outcome StA StB → Outcome StA StB
  unfolding abort
  guarded items a b (some e) rest = abort items a b e
  guarded items a b none rest = rest

  -- `for uid := range uids`, with an early return.
  unfoldable pub each :
      (World StA StB → Str → Step StA StB) → List Str → World StA StB → Step StA StB
  each step [] w = next w
  each step (uid ∷ uids) w = elim (step w uid) [
    | next w' ↦ each step uids w'
    | stop w' e ↦ stop w' e
  ]

  unfoldable pub close : Step StA StB → Outcome StA StB
  unfolding finish
  close (next w) = finish w none
  close (stop w e) = finish w (some e)

-- The UIDs of both sides and of the state.
unfoldable pub all_uids : Dict Str SideItem → Dict Str SideItem → Items → List Str
unfolding add_all
all_uids a_side b_side items =
    add_all (Dict.keys items) (add_all (Dict.keys b_side) (add_all (Dict.keys a_side) []))

module _ (env : Env) (A B : Collection) (o : Options) (uid_of : Str → Str) where
  module _ (items : Items) (a : A.State) (b : B.State) where
    unfoldable pub reconcile_all : Dict Str SideItem → Resolved → Outcome A.State B.State
    unfolding each close start all_uids
    reconcile_all a_side rb = close (
        each (reconcile A B o rb.filtered a_side rb.side)
          (env.order (all_uids a_side rb.side items)) (start items a b))

    unfoldable pub with_b_side : Dict Str SideItem → Result Error Resolved → Outcome A.State B.State
    unfolding reconcile_all abort
    with_b_side a_side (err e) = abort items a b e
    with_b_side a_side (ok rb) = reconcile_all a_side rb

    -- The set `filtered` is one for both sides.
    unfoldable pub with_a_side :
        Dict Str HrefState → List ItemMeta → Result Error Resolved → Outcome A.State B.State
    unfolding with_b_side abort
    with_a_side b_known b_list (err e) = abort items a b e
    with_a_side b_known b_list (ok ra) =
        with_b_side ra.side (resolve_side env B o uid_of b b_known b_list (record ra { side = [] }))

    unfoldable pub with_lists : List ItemMeta → List ItemMeta → Outcome A.State B.State
    unfolding with_a_side guarded
    with_lists a_list b_list =
        let a_known = known_src items (env.order (Dict.keys items)) [] in
        let b_known = known_dst items (env.order (Dict.keys items)) [] in
        guarded items a b (guard_vanished (str "A") (length a_list) (length a_known)) (
          guarded items a b (guard_vanished (str "B") (length b_list) (length b_known)) (
            with_a_side b_known b_list
              (resolve_side env A o uid_of a a_known a_list (record { side = []; filtered = [] }))))

    unfoldable pub with_b_list :
        List ItemMeta → Result Error (List ItemMeta) → Outcome A.State B.State
    unfolding with_lists
    with_b_list a_list (err e) = abort items a b (wrap (str "list B") e)
    with_b_list a_list (ok b_list) = with_lists a_list b_list

    unfoldable pub with_a_list : Result Error (List ItemMeta) → Outcome A.State B.State
    unfolding with_b_list
    with_a_list (err e) = abort items a b (wrap (str "list A") e)
    with_a_list (ok a_list) = with_b_list a_list (B.list b)

    unfoldable pub sync_bidirectional : Outcome A.State B.State
    unfolding with_a_list
    sync_bidirectional = with_a_list (A.list a)
