-- ===== src/Dav/OneWay/Ends.antt =====
-- internal/dav/sync.go: the ways in which `syncOneWay` ends.
use tidy_dav.Prelude.{◌≡◌, refl, Str, Option, none, some, List}
use tidy_dav.Prelude.Result.{Result, ok, err}
use tidy_dav.Dav.Types.{Error, ItemMeta, Collection, Items, Options, Env}
use tidy_dav.Dav.OneWay.Vars.{Step, next, stop}
use tidy_dav.Dav.OneWay.Loops.{Holds}
use tidy_dav.Dav.OneWay.{
  Outcome, close, abort, guarded, mirror_all, with_destination, with_source, sync_one_way,
}

pub close-Holds {ℓ} :
    {St : Type 0} (P : Items → Type ℓ) (s : Step St) → Holds (λ r. P r.items) s → P (close s).items
unfolding close
close-Holds P (stop r e) h = h
close-Holds P (next r) h = h

guarded-cases {ℓ} :
    {St : Type 0} (P : Outcome St → Type ℓ) (items : Items) (dst : St) (g : Option Error)
    (rest : Outcome St)
    → ((e : Error) → P (abort items dst e))
    → P rest
    → P (guarded items dst g rest)
unfolding guarded
guarded-cases P items dst (some e) rest a h = a e
guarded-cases P items dst none rest a h = h

module _ {ℓ} (env : Env) (S D : Collection) (src : S.State) (o : Options) (uid_of : Str → Str)
    (P : Outcome D.State → Type ℓ) (items : Items) (dst : D.State)
    (aborted : (e : Error) → P (abort items dst e))
    (mirrored : (ms ds : List ItemMeta)
      → S.list src ≡ ok ms
      → D.list dst ≡ ok ds
      → P (mirror_all env S D src o uid_of items dst ms ds)) where
  with_destination-cases :
      (ms : List ItemMeta) (ld : Result Error (List ItemMeta))
      → S.list src ≡ ok ms
      → D.list dst ≡ ld
      → P (with_destination env S D src o uid_of items dst ms ld)
  unfolding with_destination
  with_destination-cases ms (err e) p q = aborted _
  with_destination-cases ms (ok ds) p q = guarded-cases P items dst _ _ aborted (mirrored ms ds p q)

  with_source-cases :
      (ls : Result Error (List ItemMeta))
      → S.list src ≡ ls
      → P (with_source env S D src o uid_of items dst ls)
  unfolding with_source
  with_source-cases (err e) p = aborted _
  with_source-cases (ok ms) p =
      guarded-cases P items dst _ _ aborted (with_destination-cases ms (D.list dst) p refl)

  -- A run returns before its first write, or goes through both passes.
  pub sync_one_way-cases : P (sync_one_way env S D src o uid_of items dst)
  unfolding sync_one_way
  sync_one_way-cases = with_source-cases (S.list src) refl
