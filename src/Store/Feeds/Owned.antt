-- ===== src/Store/Feeds/Owned.antt =====
-- internal/store/feeds.go: a statement of one user leaves the rows of another alone.
use tidy_dav.Prelude.{
  ◌≡◌, refl, Str, Bool, true, false, not, Option, none, some, List, [], ◌∷◌, list_eq, nat_eq, ◌==◌,
  arith,
}
use tidy_dav.Prelude.Clock.{Time}
use tidy_dav.Store.Feeds.{
  Feed, drop_rows, set_rows, is_owned, insert_unless, insert_feed, create_feed, update_unless,
  update_rows, update_row, update_feed, delete_feed, stamped, feed_row,
}

-- The rows of a user.
abbrev pub rows_of : Str → List Feed → List Feed
rows_of v fs = drop_rows (λ f. not (f.user_id == v)) fs

module _ (v : Str) where
  rows_of-cons :
      (f : Feed) (fs : List Feed) → (f.user_id == v) ≡ false → rows_of v (f ∷ fs) ≡ rows_of v fs
  unfolding drop_rows
  rows_of-cons f fs h = rw h refl

  insert_unless-rows_of :
      (b : Bool) (f : Feed) (fs : List Feed)
      → (f.user_id == v) ≡ false
      → rows_of v (insert_unless b f fs).1 ≡ rows_of v fs
  unfolding insert_unless
  insert_unless-rows_of true f fs h = refl
  insert_unless-rows_of false f fs h = rows_of-cons f fs h

  insert_feed-rows_of :
      (db : Option Str) (f : Feed) (fs : List Feed)
      → (f.user_id == v) ≡ false
      → rows_of v (insert_feed db f fs).1 ≡ rows_of v fs
  unfolding insert_feed
  insert_feed-rows_of none f fs h = insert_unless-rows_of _ f fs h
  insert_feed-rows_of (some e) f fs h = refl

  pub create_feed-rows_of :
      (db : Option Str) (now : Time) (f : Feed) (fs : List Feed)
      → (f.user_id == v) ≡ false
      → rows_of v (create_feed db now f fs).2 ≡ rows_of v fs
  unfolding create_feed feed_row stamped
  create_feed-rows_of db now f fs h = insert_feed-rows_of db _ fs h

  set_rows-rows_of :
      (id u : Str) (set : Feed → Feed) (fs : List Feed)
      → (u == v) ≡ false
      → ((f : Feed) → (set f).user_id ≡ f.user_id)
      → rows_of v (set_rows (is_owned id u) set fs) ≡ rows_of v fs
  unfolding set_rows drop_rows
  set_rows-rows_of id u set [] h same = refl
  set_rows-rows_of id u set (f ∷ fs) h same =
      ground (arith, set_rows-rows_of id u set fs h same, same f)

  update_unless-rows_of :
      (b : Bool) (f : Feed) (fs : List Feed)
      → (f.user_id == v) ≡ false
      → rows_of v (update_unless b f fs).1 ≡ rows_of v fs
  unfolding update_unless update_row
  update_unless-rows_of true f fs h = refl
  update_unless-rows_of false f fs h =
      set_rows-rows_of f.id f.user_id (update_row f) fs h (λ g. refl)

  update_rows-rows_of :
      (db : Option Str) (f : Feed) (fs : List Feed)
      → (f.user_id == v) ≡ false
      → rows_of v (update_rows db f fs).1 ≡ rows_of v fs
  unfolding update_rows
  update_rows-rows_of none f fs h = update_unless-rows_of _ f fs h
  update_rows-rows_of (some e) f fs h = refl

  pub update_feed-rows_of :
      (db : Option Str) (now : Time) (f : Feed) (fs : List Feed)
      → (f.user_id == v) ≡ false
      → rows_of v (update_feed db now f fs).2 ≡ rows_of v fs
  unfolding update_feed
  update_feed-rows_of db now f fs h = update_rows-rows_of db _ fs h

  drop_rows-rows_of :
      (id u : Str) (fs : List Feed)
      → (u == v) ≡ false
      → rows_of v (drop_rows (is_owned id u) fs) ≡ rows_of v fs
  unfolding drop_rows
  drop_rows-rows_of id u [] h = refl
  drop_rows-rows_of id u (f ∷ fs) h = ground (arith, drop_rows-rows_of id u fs h)

  pub delete_feed-rows_of :
      (db : Option Str) (id u : Str) (fs : List Feed)
      → (u == v) ≡ false
      → rows_of v (delete_feed db id u fs).1 ≡ rows_of v fs
  unfolding delete_feed
  delete_feed-rows_of none id u fs h = drop_rows-rows_of id u fs h
  delete_feed-rows_of (some e) id u fs h = refl
