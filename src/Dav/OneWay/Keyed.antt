-- ===== src/Dav/OneWay/Keyed.antt =====
-- internal/dav/sync.go: `syncOneWay` keeps the state Keyed by UID.
use tidy_dav.Prelude.{Str, List, [], list_eq, nat_eq}
use tidy_dav.Prelude.Dict
use tidy_dav.Dav.Types.{ItemMeta, Collection, Items, Options, Env}
use tidy_dav.Dav.Keyed.{IsKeyed, insert-IsKeyed, erase-IsKeyed}
use tidy_dav.Dav.Href.{Index, index_by_href}
use tidy_dav.Dav.OneWay.Vars.{
  Run, Step, next, stop, each, by_src_href, mark_seen, mark_filtered, note_unverified,
}
use tidy_dav.Dav.OneWay.Loops.{Holds, each-Holds}
use tidy_dav.Dav.OneWay.Closed.{IsClosed, mirror_item-closed}
use tidy_dav.Dav.OneWay.Deletes.{IsDeletable, delete_item-Holds}
use tidy_dav.Dav.OneWay.Ends.{close-Holds, sync_one_way-cases}
use tidy_dav.Dav.OneWay.Item.{mirror_item}
use tidy_dav.Dav.OneWay.{delete_item, delete_gone, start, abort, mirror_all, sync_one_way}

abbrev Keyed : {St : Type 0} → Run St → Type 0
Keyed r = IsKeyed r.items

Keyed-IsClosed : {St : Type 0} → IsClosed (Keyed {St = St})
unfolding mark_seen mark_filtered note_unverified
Keyed-IsClosed = record {
  keyed = λ r h. h;
  write = λ r uid st dst res h e. insert-IsKeyed r.items uid st h e;
  lost = λ r dst h. h;
  seen = λ r uid h. h;
  filtered = λ r uid h. h;
  unverified = λ r e h. h;
}

Keyed-IsDeletable : {St : Type 0} → IsDeletable (Keyed {St = St})
Keyed-IsDeletable = record {
  lost = λ r dst h. h;
  drop = λ r uid dst res f h. erase-IsKeyed r.items uid h;
}

module _ (env : Env) (S D : Collection) (src : S.State) (o : Options) (uid_of : Str → Str) where
  delete_gone-Keyed :
      (idx : Index) (s : Step D.State)
      → Holds Keyed s
      → IsKeyed (delete_gone env S D src o uid_of idx s).items
  unfolding delete_gone
  delete_gone-Keyed idx (stop r e) h = h
  delete_gone-Keyed idx (next r) h =
      close-Holds IsKeyed (each (delete_item env D idx) (env.order (Dict.keys r.items)) r) (
        each-Holds Keyed (delete_item env D idx)
          (λ r' uid h'. delete_item-Holds env D idx Keyed Keyed-IsDeletable r' uid h')
          (env.order (Dict.keys r.items)) r h)

  mirror_all-IsKeyed :
      (items : Items) (dst : D.State) (ms ds : List ItemMeta)
      → IsKeyed items
      → IsKeyed (mirror_all env S D src o uid_of items dst ms ds).items
  unfolding mirror_all
  mirror_all-IsKeyed items dst ms ds h =
      let known = by_src_href items (env.order (Dict.keys items)) [] in
      let idx = index_by_href env ds in
      let step = mirror_item env S D src o uid_of known idx in
      delete_gone-Keyed idx (each step ms (start items dst)) (
        each-Holds Keyed step
          (λ r meta k.
            mirror_item-closed env S D src o uid_of Keyed Keyed-IsClosed known idx r meta k)
          ms (start items dst) h)

  -- Whatever the two sides answer, and also where the run fails, the state stays Keyed by UID.
  pub sync_one_way-IsKeyed :
      (items : Items) (dst : D.State)
      → IsKeyed items
      → IsKeyed (sync_one_way env S D src o uid_of items dst).items
  unfolding abort
  sync_one_way-IsKeyed items dst h =
      sync_one_way-cases env S D src o uid_of (λ out. IsKeyed out.items) items dst (λ e. h)
        (λ ms ds _ _. mirror_all-IsKeyed items dst ms ds h)
