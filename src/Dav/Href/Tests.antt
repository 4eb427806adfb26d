-- ===== src/Dav/Href/Tests.antt =====
-- internal/dav/sync.go: hrefs of some UIDs.
use tidy_dav.Prelude.{arith, ◌≡◌, refl, str}
use tidy_dav.Dav.Href.{dest_href}
use tidy_dav.Dav.Href.Safe.{IsSafe, dest_href-IsSafe}

-- Two UIDs, one href.
shared : dest_href (str "a/b") (str ".ics") ≡ dest_href (str "a-b") (str ".ics")
unfolding dest_href
shared = refl

dest_href-IsSafe_example : IsSafe (dest_href (str "a/b") (str ".ics"))
dest_href-IsSafe_example =
    dest_href-IsSafe (str "a/b") (str ".ics")
      (ground arith, (ground arith, (ground arith, (ground arith, tt))))
