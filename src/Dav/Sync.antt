-- ===== src/Dav/Sync.antt =====
-- internal/dav/sync.go: `Sync`, the entry of the engine.
use tidy_dav.Prelude.{Str, Option, none, some}
use tidy_dav.Dav.Types.{
  Error, uid_required, unknown_direction, Collection, Direction, a_to_b, b_to_a, bidirectional,
  other, Items, Options, no_counts, Env,
}
use tidy_dav.Dav.Keyed.{IsKeyed}
use tidy_dav.Dav.OneWay.{Outcome as OneWayOutcome, sync_one_way}
use tidy_dav.Dav.OneWay.Keyed.{sync_one_way-IsKeyed}
use tidy_dav.Dav.Bidi.{Outcome, sync_bidirectional}
use tidy_dav.Dav.Bidi.Keyed.{sync_bidirectional-IsKeyed}

module _ (env : Env) (A B : Collection) (o : Options) (items : Items) (a : A.State)
    (b : B.State) where
  abbrev from_a : OneWayOutcome B.State → Outcome A.State B.State
  from_a r = record { res = r.res; error = r.error; items = r.items; a = a; b = r.dst }

  abbrev from_b : OneWayOutcome A.State → Outcome A.State B.State
  from_b r = record { res = r.res; error = r.error; items = r.items; a = r.dst; b = b }

  abbrev refused : Error → Outcome A.State B.State
  refused e = record { res = no_counts; error = some e; items = items; a = a; b = b }

  sync_directed : (Str → Str) → Direction → Outcome A.State B.State
  sync_directed uid_of a_to_b = from_a (sync_one_way env A B a o uid_of items b)
  sync_directed uid_of b_to_a = from_b (sync_one_way env B A b o uid_of items a)
  sync_directed uid_of bidirectional = sync_bidirectional env A B o uid_of items a b
  sync_directed uid_of (other d) = refused (unknown_direction d)

  sync_with : Option (Str → Str) → Outcome A.State B.State
  unfolding sync_directed
  sync_with none = refused uid_required
  sync_with (some uid_of) = sync_directed uid_of o.direction

  unfoldable pub sync : Outcome A.State B.State
  unfolding sync_with
  sync = sync_with o.uid

  sync_directed-IsKeyed :
      (uid_of : Str → Str) (d : Direction) → IsKeyed items → IsKeyed (sync_directed uid_of d).items
  unfolding sync_directed
  sync_directed-IsKeyed uid_of a_to_b h = sync_one_way-IsKeyed env A B a o uid_of items b h
  sync_directed-IsKeyed uid_of b_to_a h = sync_one_way-IsKeyed env B A b o uid_of items a h
  sync_directed-IsKeyed uid_of bidirectional h =
      sync_bidirectional-IsKeyed env A B o uid_of items a b h
  sync_directed-IsKeyed uid_of (other d) h = h

  sync_with-IsKeyed : (f : Option (Str → Str)) → IsKeyed items → IsKeyed (sync_with f).items
  unfolding sync_with
  sync_with-IsKeyed none h = h
  sync_with-IsKeyed (some uid_of) h = sync_directed-IsKeyed uid_of o.direction h

-- If every entry of the state stands under its own UID before a run, it does so after the run, in
-- every direction, whatever the two servers answer, and also where the run ends in an error.
pub sync-IsKeyed :
    (env : Env) (A B : Collection) (o : Options) (items : Items) (a : A.State) (b : B.State)
    → IsKeyed items
    → IsKeyed (sync env A B o items a b).items
unfolding sync
sync-IsKeyed env A B o items a b h = sync_with-IsKeyed env A B o items a b o.uid h
