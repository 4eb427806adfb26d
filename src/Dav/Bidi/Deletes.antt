-- ===== src/Dav/Bidi/Deletes.antt =====
-- internal/dav/sync_bidi.go: what a bidirectional run deletes.
use tidy_dav.Prelude.{◌≡◌, false, Option, none, some, is_empty, list_eq, nat_eq}
use tidy_dav.Prelude.Dict
use tidy_dav.Prelude.Dict.{Dict}
use tidy_dav.Prelude.Result.{Result}
use tidy_dav.Dav.Types.{ItemState}
use tidy_dav.Dav.Bidi.Side.{SideItem}
use tidy_dav.Dav.Bidi.Item.{World, Step, next, stop}

-- The variables as a step leaves them.
abbrev pub after : {StA StB : Type 0} → Step StA StB → World StA StB
after (next w) = w
after (stop w e) = w

-- The item is on one side alone, it has not changed there since the last run, and the state has it
-- on the other side: it was deleted there.
abbrev pub IsDeletion : Option SideItem → Option SideItem → Option ItemState → Type 0
IsDeletion (some ai) none (some st) = (is_empty st.dst_href ≡ false) × (ai.changed ≡ false)
IsDeletion none (some bi) (some st) = (is_empty st.src_href ≡ false) × (bi.changed ≡ false)
IsDeletion _ _ _ = ⊥
