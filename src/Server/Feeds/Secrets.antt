-- ===== src/Server/Feeds/Secrets.antt =====
-- internal/server/feeds.go: the passwords of the sources across an edit.
use tidy_dav.Prelude.{
  ◌≡◌, refl, Str, false, not, ◌&&◌, ==_self, Option, none, some, List, [], ◌∷◌, is_empty, contains,
  map, list_eq, nat_eq, ◌==◌, if◌then◌else◌, arith, All,
}
use tidy_dav.Store.Feeds.{FeedSource}
use tidy_dav.Server.Feeds.{
  SourceRequest, by_url, kept_password, preserve_from, preserve_source_secrets,
}

-- What the editor sends back for a source that it has not changed: the password is write-only.
abbrev pub unchanged : FeedSource → SourceRequest
unchanged s = record { url = s.url; username = s.username; password = []; clear_password = false }

abbrev pub without_password : FeedSource → FeedSource
without_password s = record s { password = [] }

abbrev pub urls : List FeedSource → List Str
urls ss = map (λ s. s.url) ss

-- No URL stands twice.
abbrev pub IsDistinct : List FeedSource → Type 0
IsDistinct [] = Unit
IsDistinct (s ∷ ss) = (contains (urls ss) s.url ≡ false) × IsDistinct ss

abbrev if_some : Str → Option Str
if_some [] = none
if_some (c ∷ p) = some (c ∷ p)

-- The URL of a source finds its password.
abbrev Finds : List FeedSource → FeedSource → Type 0
Finds all s = by_url s.url all ≡ if_some s.password

by_url-absent :
    (url : Str) (ss : List FeedSource) → contains (urls ss) url ≡ false → by_url url ss ≡ none
unfolding by_url
by_url-absent url [] h = refl
by_url-absent url (s ∷ ss) h = ground (arith, by_url-absent url ss)

if_some_self : (p url : Str) → (if not (is_empty p) && url == url then some p else none) ≡ if_some p
if_some_self [] url = refl
if_some_self (c ∷ p) url = rw ==_self refl

by_url-first :
    (s : FeedSource) (ss : List FeedSource) → contains (urls ss) s.url ≡ false → Finds (s ∷ ss) s
unfolding by_url
by_url-first s ss h = rw (by_url-absent s.url ss h) (if_some_self s.password s.url)

by_url-later :
    (s t : FeedSource) (ss : List FeedSource)
    → (s.url == t.url) ≡ false
    → Finds ss t
    → Finds (s ∷ ss) t
unfolding by_url
by_url-later s t ss other found = ground (arith, found)

Finds-later :
    (s : FeedSource) (ss ts : List FeedSource)
    → contains (urls ts) s.url ≡ false
    → All (Finds ss) ts
    → All (Finds (s ∷ ss)) ts
Finds-later s ss [] absent h = tt
Finds-later s ss (t ∷ ts) absent (h, hs) =
    (by_url-later s t ss (ground arith) h, Finds-later s ss ts (ground arith) hs)

Finds-All : (ss : List FeedSource) → IsDistinct ss → All (Finds ss) ss
Finds-All [] d = tt
Finds-All (s ∷ ss) (absent, d) =
    (by_url-first s ss absent, Finds-later s ss ss absent (Finds-All ss d))

kept_password-if_some : (p : Str) → kept_password false [] (if_some p) p ≡ p
unfolding kept_password
kept_password-if_some [] = refl
kept_password-if_some (c ∷ p) = refl

preserve_from-unchanged :
    (all ss : List FeedSource)
    → All (Finds all) ss
    → preserve_from all (map without_password ss) (map unchanged ss) ss ≡ ss
unfolding preserve_from
preserve_from-unchanged all [] h = refl
preserve_from-unchanged all (s ∷ ss) (h, hs) =
    rw (h, kept_password-if_some s.password, preserve_from-unchanged all ss hs) refl

-- Saving the sources as the editor has received them, in which there is no password, keeps every
-- stored password, where no URL stands twice.
pub preserve_source_secrets-unchanged :
    (ss : List FeedSource)
    → IsDistinct ss
    → preserve_source_secrets (map without_password ss) (map unchanged ss) ss ≡ ss
unfolding preserve_source_secrets
preserve_source_secrets-unchanged ss d = preserve_from-unchanged ss ss (Finds-All ss d)
