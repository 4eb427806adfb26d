-- ===== src/Dav/Bidi/Keyed.antt =====
-- internal/dav/sync_bidi.go: `syncBidirectional` keeps the state keyed by UID.
use tidy_dav.Prelude.{Str, list_eq, nat_eq}
use tidy_dav.Dav.Types.{Collection, Items, Options, Env}
use tidy_dav.Dav.Keyed.{IsKeyed, insert-IsKeyed, erase-IsKeyed}
use tidy_dav.Dav.Bidi.Loops.{sync_bidirectional-cases}
use tidy_dav.Dav.Bidi.Entries.{Keeps, reconcile_all-items}
use tidy_dav.Dav.Bidi.{abort, sync_bidirectional}

Keeps-IsKeyed : (uid : Str) → Keeps IsKeyed uid
Keeps-IsKeyed uid = record {
  insert = λ items st h e. insert-IsKeyed items uid st h e;
  erase = λ items h. erase-IsKeyed items uid h;
}

-- Whatever the two sides answer, and also where the run fails, the state stays keyed by UID.
pub sync_bidirectional-IsKeyed :
    (env : Env) (A B : Collection) (o : Options) (uid_of : Str → Str) (items : Items) (a : A.State)
    (b : B.State)
    → IsKeyed items
    → IsKeyed (sync_bidirectional env A B o uid_of items a b).items
unfolding abort
sync_bidirectional-IsKeyed env A B o uid_of items a b h =
    sync_bidirectional-cases env A B o uid_of items a b (λ out. IsKeyed out.items) (λ e. h)
      λ a_side rb.
        reconcile_all-items env A B o uid_of IsKeyed items a b a_side rb
          (λ uid _. Keeps-IsKeyed uid) h
