-- ===== src/Dav/OneWay/Guard.antt =====
-- internal/dav/sync.go: a side that suddenly lists nothing stops `syncOneWay` before any write.
use tidy_dav.Prelude.{
  ◌≤◌, ◌≡◌, refl, ◌⊎◌, inl, inr, Str, str, true, some, List, [], ◌∷◌, length, arith,
}
use tidy_dav.Prelude.Result.{ok}
use tidy_dav.Dav.Types.{
  Error, collection_vanished, is_vanished, ItemMeta, Collection, Items, Options, no_counts,
  vanish_guard_threshold, guard_vanished, Env,
}
use tidy_dav.Dav.OneWay.{Outcome, sync_one_way}
use tidy_dav.Dav.OneWay.Vars.{count_dst}

-- The run ends with the error of the vanish guard, and has changed nothing.
abbrev pub IsBlocked : {St : Type 0} → Items → St → Outcome St → Type 0
IsBlocked items dst out =
    (reason : Error) × (out
      ≡ record { res = no_counts; error = some reason; items = items; dst = dst })
    × (is_vanished reason ≡ true)

module _ (env : Env) (S D : Collection) (src : S.State) (o : Options) (uid_of : Str → Str) where
  source-IsBlocked :
      (items : Items) (dst : D.State)
      → S.list src ≡ ok []
      → vanish_guard_threshold ≤ length items
      → IsBlocked items dst (sync_one_way env S D src o uid_of items dst)
  unfolding sync_one_way guard_vanished is_vanished
  source-IsBlocked items dst l h =
      (collection_vanished (str "source") (length items), ground arith, refl)

  destination-IsBlocked :
      (items : Items) (dst : D.State) (m : ItemMeta) (ms : List ItemMeta)
      → S.list src ≡ ok (m ∷ ms)
      → D.list dst ≡ ok []
      → vanish_guard_threshold ≤ count_dst items
      → IsBlocked items dst (sync_one_way env S D src o uid_of items dst)
  unfolding sync_one_way guard_vanished is_vanished
  destination-IsBlocked items dst m ms l k h =
      (collection_vanished (str "destination") (count_dst items), ground arith, refl)

  -- If the source lists nothing and the state has five items or more, or the source lists
  -- something, the destination lists nothing and the state has five destination copies or more,
  -- then the run returns the vanish error, and counters, state and destination are as before.
  pub sync_one_way-IsBlocked :
      (items : Items) (dst : D.State)
      → (S.list src ≡ ok []) × (vanish_guard_threshold ≤ length items)
        ⊎ ((m : ItemMeta) × (ms : List ItemMeta) × (S.list src ≡ ok (m ∷ ms))
            × (D.list dst ≡ ok [])
            × (vanish_guard_threshold ≤ count_dst items))
      → IsBlocked items dst (sync_one_way env S D src o uid_of items dst)
  sync_one_way-IsBlocked items dst (inl (l, h)) = source-IsBlocked items dst l h
  sync_one_way-IsBlocked items dst (inr (m, ms, l, k, h)) =
      destination-IsBlocked items dst m ms l k h
