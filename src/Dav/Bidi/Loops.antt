-- ===== src/Dav/Bidi/Loops.antt =====
-- internal/dav/sync_bidi.go: invariants of the loop over the UIDs, and the ways in which a run ends.
use tidy_dav.Prelude.{
  Str, str, length, Bool, true, false, Option, none, some, List, [], ◌∷◌, if◌then◌else◌,
}
use tidy_dav.Prelude.Dict
use tidy_dav.Prelude.Dict.{Dict}
use tidy_dav.Prelude.Result.{Result, ok, err}
use tidy_dav.Dav.Types.{Error, ItemMeta, Collection, Items, Options, Env, guard_vanished}
use tidy_dav.Dav.Bidi.Side.{SideItem, HrefState, Resolved, known_src, known_dst, resolve_side}
use tidy_dav.Dav.Bidi.Item.{World, Step, next, stop}
use tidy_dav.Dav.Bidi.{
  Outcome, abort, guarded, each, close, reconcile_all, with_b_side, with_a_side, with_lists,
  with_b_list, with_a_list, sync_bidirectional,
}

module _ {ℓ} {StA StB : Type 0} (P : World StA StB → Type ℓ) where
  abbrev pub Holds : Step StA StB → Type ℓ
  Holds (next w) = P w
  Holds (stop w e) = P w

  pub Holds-if : (b : Bool) (s t : Step StA StB) → Holds s → Holds t → Holds (if b then s else t)
  Holds-if true s t p q = p
  Holds-if false s t p q = q

module _ {ℓ} {StA StB : Type 0} (P : World StA StB → Type ℓ)
    (step : World StA StB → Str → Step StA StB) where
  each-Holds_step :
      (s : Step StA StB) (uids : List Str)
      → Holds P s
      → ((w : World StA StB) → P w → Holds P (each step uids w))
      → Holds P (elim s [ next w ↦ each step uids w | stop w e ↦ stop w e ])
  each-Holds_step (next w) uids h rest = rest w h
  each-Holds_step (stop w e) uids h rest = h

  pub each-Holds :
      ((w : World StA StB) (uid : Str) → P w → Holds P (step w uid))
      → (uids : List Str) (w : World StA StB) → P w
      → Holds P (each step uids w)
  unfolding each
  each-Holds keep [] w h = h
  each-Holds keep (uid ∷ uids) w h =
      each-Holds_step (step w uid) uids (keep w uid h) (λ w'. each-Holds keep uids w')

pub close-Holds {ℓ} :
    {StA StB : Type 0} (P : Items → Type ℓ) (s : Step StA StB)
    → Holds (λ w. P w.items) s
    → P (close s).items
unfolding close
close-Holds P (stop w e) h = h
close-Holds P (next w) h = h

guarded-cases {ℓ} :
    {StA StB : Type 0} (P : Outcome StA StB → Type ℓ) (items : Items) (a : StA) (b : StB)
    (g : Option Error) (rest : Outcome StA StB)
    → ((e : Error) → P (abort items a b e))
    → P rest
    → P (guarded items a b g rest)
unfolding guarded
guarded-cases P items a b (some e) rest u h = u e
guarded-cases P items a b none rest u h = h

module _ {ℓ} (env : Env) (A B : Collection) (o : Options) (uid_of : Str → Str) (items : Items)
    (a : A.State) (b : B.State) (P : Outcome A.State B.State → Type ℓ)
    (aborted : (e : Error) → P (abort items a b e))
    (reconciled : (a_side : Dict Str SideItem) (rb : Resolved)
      → P (reconcile_all env A B o uid_of items a b a_side rb)) where
  with_b_side-cases :
      (a_side : Dict Str SideItem) (rb : Result Error Resolved)
      → P (with_b_side env A B o uid_of items a b a_side rb)
  unfolding with_b_side
  with_b_side-cases a_side (err e) = aborted e
  with_b_side-cases a_side (ok rb) = reconciled a_side rb

  with_a_side-cases :
      (known : Dict Str HrefState) (ms : List ItemMeta) (ra : Result Error Resolved)
      → P (with_a_side env A B o uid_of items a b known ms ra)
  unfolding with_a_side
  with_a_side-cases known ms (err e) = aborted e
  with_a_side-cases known ms (ok ra) = with_b_side-cases ra.side _

  with_lists-cases :
      (a_list b_list : List ItemMeta) → P (with_lists env A B o uid_of items a b a_list b_list)
  unfolding with_lists
  with_lists-cases a_list b_list =
      let a_known = known_src items (env.order (Dict.keys items)) [] in
      let b_known = known_dst items (env.order (Dict.keys items)) [] in
      guarded-cases P items a b (guard_vanished (str "A") (length a_list) (length a_known)) _
        aborted
        (guarded-cases P items a b (guard_vanished (str "B") (length b_list) (length b_known)) _
          aborted
          (with_a_side-cases b_known b_list
            (resolve_side env A o uid_of a a_known a_list (record { side = []; filtered = [] }))))

  with_b_list-cases :
      (a_list : List ItemMeta) (lb : Result Error (List ItemMeta))
      → P (with_b_list env A B o uid_of items a b a_list lb)
  unfolding with_b_list
  with_b_list-cases a_list (err e) = aborted _
  with_b_list-cases a_list (ok b_list) = with_lists-cases a_list b_list

  with_a_list-cases :
      (la : Result Error (List ItemMeta)) → P (with_a_list env A B o uid_of items a b la)
  unfolding with_a_list
  with_a_list-cases (err e) = aborted _
  with_a_list-cases (ok a_list) = with_b_list-cases a_list (B.list b)

  -- A run returns before its first write, or goes through the loop over the UIDs.
  pub sync_bidirectional-cases : P (sync_bidirectional env A B o uid_of items a b)
  unfolding sync_bidirectional
  sync_bidirectional-cases = with_a_list-cases (A.list a)
