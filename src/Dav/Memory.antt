-- ===== src/Dav/Memory.antt =====
-- A collection in memory and plain library functions: runs of the engine, and its theorems at them.
pub mod Tests
use tidy_dav.Prelude.{
  ◌≡◌, refl, ◌+◌, Str, str, Option, none, some, List, [], ◌∷◌, ◌==◌, list_eq, nat_eq, if◌then◌else◌,
}
use tidy_dav.Prelude.Result.{Result, ok, err}
use tidy_dav.Dav.Types.{Error, remote, ItemMeta, Item, Collection, Env, IsRange}

abbrev pub metas : List Item → List ItemMeta
metas [] = []
metas (i ∷ is) = record { href = i.href; etag = i.etag } ∷ metas is

abbrev pub find : Str → List Item → Result Error Item
find href [] = err (remote (str "404"))
find href (i ∷ is) = if href == i.href then ok i else find href is

abbrev pub remove : Str → List Item → List Item
remove href [] = []
remove href (i ∷ is) = let rest = remove href is in if href == i.href then rest else i ∷ rest

-- The server gives what it stores the ETag "new".
abbrev pub stored : Item → Item
stored i = record i { etag = str "new" }

abbrev pub memory : Collection
memory = record {
  State = List Item;
  list = λ s. ok (metas s);
  get = λ s href. find href s;
  put = λ s i. (ok (stored i), stored i ∷ remove i.href s);
  delete = λ s href. (ok tt, remove href s);
}

-- A server that cannot read one of its items.
abbrev pub broken : Collection
broken = record memory { get = λ s href. err (remote (str "500")) }

abbrev pub plain : Env
plain = record {
  sha256 = λ body. body;
  url_path = λ h. some h;
  path_unescape = λ h. some h;
  path_clean = λ h. h;
  starts = λ body. some [];
  order = λ ks. ks;
}

pub plain-IsRange : IsRange plain
plain-IsRange = record { contains-order = λ ks k. refl }
