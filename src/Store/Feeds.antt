-- ===== src/Store/Feeds.antt =====
-- internal/store/feeds.go: the table of output feeds. An argument of type `Option Str` is the error
-- of a statement, if it fails. The JSON texts of the rules and the notifications are kept as they
-- are, the sources as the list that their text stands for.
pub mod Owned
use tidy_dav.Prelude.{
  ℕ, Str, str, Bool, true, false, not, ◌+◌, ◌&&◌, ◌||◌, Option, none, some, List, [], ◌∷◌, is_empty,
  any, leb, list_eq, nat_eq, ◌==◌, if◌then◌else◌,
}
use tidy_dav.Prelude.Int.{ℤ}
use tidy_dav.Prelude.Result.{Result, ok, err}
use tidy_dav.Prelude.Clock.{Time, is_zero, at_second}
use tidy_dav.Store.Types.{Error, not_found, failed, query}

pub record FeedSource : Type 0 where
  pub url : Str
  pub username : Str
  pub password : Str

pub record Feed : Type 0 where
  pub id : Str
  pub user_id : Str
  pub name : Str
  pub secret : Str
  pub sources : List FeedSource
  pub rules : Str
  pub ttl_seconds : ℤ
  pub basic_auth_user : Str
  pub basic_auth_hash : Str
  pub notifications : Str
  pub last_served_at : Time
  pub serve_count : ℕ
  pub created_at : Time
  pub updated_at : Time

abbrev pub text_or : Str → Str → Str
text_or d [] = d
text_or d (c ∷ s) = c ∷ s

unfoldable pub rules_or_empty : Str → Str
rules_or_empty raw = text_or (str "[]") raw

unfoldable pub notif_or_empty : Str → Str
notif_or_empty raw = text_or (str "{}") raw

-- The feed in memory after `CreateFeed` has set its times.
unfoldable pub stamped : Time → Feed → Feed
stamped now f = record f {
  created_at = if is_zero f.created_at then now else f.created_at;
  updated_at = now;
}

-- The row that is written.
unfoldable pub feed_row : Feed → Feed
unfolding rules_or_empty notif_or_empty
feed_row f = record f {
  rules = rules_or_empty f.rules;
  notifications = notif_or_empty f.notifications;
  last_served_at = at_second f.last_served_at;
  created_at = at_second f.created_at;
  updated_at = at_second f.updated_at;
}

-- The primary key and the unique column.
unfoldable pub clashes : Feed → Feed → Bool
clashes f g = f.id == g.id || f.secret == g.secret

-- The first argument says whether a row of the table is in the way.
unfoldable pub insert_unless : Bool → Feed → List Feed → Result Error (Unit {0}) × List Feed
insert_unless true f fs = (err (failed (str "create feed") (str "UNIQUE")), fs)
insert_unless false f fs = (ok tt, f ∷ fs)

unfoldable pub insert_feed : Option Str → Feed → List Feed → Result Error (Unit {0}) × List Feed
unfolding clashes insert_unless
insert_feed none f fs = insert_unless (any (clashes f) fs) f fs
insert_feed (some e) f fs = (err (failed (str "create feed") e), fs)

-- `CreateFeed`, with the feed that it leaves to the caller.
unfoldable pub create_feed :
    Option Str → Time → Feed → List Feed → Result Error (Unit {0}) × Feed × List Feed
unfolding stamped feed_row insert_feed
create_feed db now f fs =
    let (r, rows) = insert_feed db (feed_row (stamped now f)) fs in (r, stamped now f, rows)

abbrev pub is_owned : Str → Str → Feed → Bool
is_owned id user_id f = f.id == id && f.user_id == user_id

-- The columns of `UPDATE feeds SET ...`; the last argument is the row.
unfoldable pub update_row : Feed → Feed → Feed
unfolding rules_or_empty notif_or_empty
update_row f row = record row {
  name = f.name;
  secret = f.secret;
  sources = f.sources;
  rules = rules_or_empty f.rules;
  ttl_seconds = f.ttl_seconds;
  basic_auth_user = f.basic_auth_user;
  basic_auth_hash = f.basic_auth_hash;
  notifications = notif_or_empty f.notifications;
  updated_at = at_second f.updated_at;
}

unfoldable pub set_rows : (Feed → Bool) → (Feed → Feed) → List Feed → List Feed
set_rows p set [] = []
set_rows p set (f ∷ fs) = (if p f then set f else f) ∷ set_rows p set fs

-- `checkAffected`
unfoldable pub check_affected : Bool → Result Error (Unit {0})
check_affected true = ok tt
check_affected false = err not_found

abbrev takes_secret : Feed → Feed → Bool
takes_secret f row = f.secret == row.secret && not (is_owned f.id f.user_id row)

-- The first argument says whether another row has the secret.
unfoldable pub update_unless : Bool → Feed → List Feed → Result Error (Unit {0}) × List Feed
unfolding update_row set_rows check_affected
update_unless true f fs = (err (failed (str "update feed") (str "UNIQUE")), fs)
update_unless false f fs = (
  check_affected (any (is_owned f.id f.user_id) fs),
  set_rows (is_owned f.id f.user_id) (update_row f) fs,
)

unfoldable pub update_rows : Option Str → Feed → List Feed → Result Error (Unit {0}) × List Feed
unfolding update_unless
update_rows none f fs =
    update_unless (any (is_owned f.id f.user_id) fs && any (takes_secret f) fs) f fs
update_rows (some e) f fs = (err (failed (str "update feed") e), fs)

-- `UpdateFeed`, with the feed that it leaves to the caller.
unfoldable pub update_feed :
    Option Str → Time → Feed → List Feed → Result Error (Unit {0}) × Feed × List Feed
unfolding update_rows
update_feed db now f fs =
    let f' = record f { updated_at = now } in let (r, rows) = update_rows db f' fs in (r, f', rows)

unfoldable pub mark_feed_served :
    Option Str → Time → Str → List Feed → Result Error (Unit {0}) × List Feed
unfolding set_rows
mark_feed_served (some e) now id fs = (err (failed (str "mark feed served") e), fs)
mark_feed_served none now id fs = (
  ok tt,
  set_rows (λ f. f.id == id)
      (λ f. record f { last_served_at = at_second now; serve_count = f.serve_count + 1 }) fs,
)

unfoldable pub drop_rows : (Feed → Bool) → List Feed → List Feed
drop_rows p [] = []
drop_rows p (f ∷ fs) = let rest = drop_rows p fs in if p f then rest else f ∷ rest

unfoldable pub delete_feed :
    Option Str → Str → Str → List Feed → Result Error (Unit {0}) × List Feed
unfolding drop_rows check_affected
delete_feed (some e) id user_id fs = (err (failed (str "delete feed") e), fs)
delete_feed none id user_id fs =
    (check_affected (any (is_owned id user_id) fs), drop_rows (is_owned id user_id) fs)

unfoldable pub first_feed : (Feed → Bool) → List Feed → Result Error Feed
first_feed p [] = err not_found
first_feed p (f ∷ fs) = let rest = first_feed p fs in if p f then ok f else rest

unfoldable pub feed_by : Option Str → (Feed → Bool) → List Feed → Result Error Feed
unfolding first_feed
feed_by none p fs = first_feed p fs
feed_by (some e) p fs = err (failed (str "query feed") e)

unfoldable pub feed_by_id : Option Str → Str → List Feed → Result Error Feed
unfolding feed_by
feed_by_id db id fs = feed_by db (λ f. f.id == id) fs

unfoldable pub feed_by_secret : Option Str → Str → List Feed → Result Error Feed
unfolding feed_by
feed_by_secret db secret fs = feed_by db (λ f. f.secret == secret) fs

-- `ORDER BY created_at`
unfoldable pub place : Feed → List Feed → List Feed
place f [] = f ∷ []
place f (g ∷ gs) =
    let rest = g ∷ place f gs in if leb f.created_at g.created_at then f ∷ g ∷ gs else rest

unfoldable pub in_creation_order : List Feed → List Feed
unfolding place
in_creation_order [] = []
in_creation_order (f ∷ fs) = place f (in_creation_order fs)

unfoldable pub feeds_by_user : Option Str → Str → List Feed → Result Error (List Feed)
unfolding in_creation_order drop_rows
feeds_by_user db user_id fs =
    query (str "query feeds") db
      (in_creation_order (drop_rows (λ f. not (f.user_id == user_id)) fs))

unfoldable pub all_feeds : Option Str → List Feed → Result Error (List Feed)
unfolding in_creation_order
all_feeds db fs = query (str "query feeds") db (in_creation_order fs)
