-- ===== src/Store/FeedCache.antt =====
-- internal/store/feedcache.go: the last good copy of each upstream feed, by cache key.
use tidy_dav.Prelude.{
  Str, str, Option, none, some, [], ◌∷◌, ◌==◌, list_eq, nat_eq, is_empty, ltb, if◌then◌else◌,
}
use tidy_dav.Prelude.Dict
use tidy_dav.Prelude.Dict.{Dict}
use tidy_dav.Prelude.Result.{Result, ok, err}
use tidy_dav.Prelude.Clock.{Time, is_zero, at_second}
use tidy_dav.Store.Types.{Error, not_found, failed, query, exec}

pub record CachedFeed : Type 0 where
  pub key : Str
  pub url : Str
  pub body : Str
  pub etag : Str
  pub fetched_at : Time

-- The rows of `feed_cache`, whose primary key is `cache_key`.
abbrev pub Rows : Type 0
Rows = Dict Str CachedFeed

unfoldable pub row_or : Option CachedFeed → Result Error CachedFeed
row_or none = err not_found
row_or (some c) = ok c

unfoldable pub get_cached_feed : Option Str → Str → Rows → Result Error CachedFeed
unfolding row_or
get_cached_feed none key rows = row_or (Dict.lookup key rows)
get_cached_feed (some e) key rows = err (failed (str "query feed cache") e)

-- The row that is written: a fetch time that is not set is now, an empty key is the URL, and the
-- column keeps whole seconds.
unfoldable pub put_row : Time → CachedFeed → CachedFeed
put_row now c = record c {
  key = (if is_empty c.key then c.url else c.key);
  fetched_at = at_second (if is_zero c.fetched_at then now else c.fetched_at);
}

unfoldable pub put_cached_feed :
    Option Str → Time → CachedFeed → Rows → Result Error (Unit {0}) × Rows
unfolding put_row
put_cached_feed db now c rows =
    let row = put_row now c in
    (query (str "put feed cache") db tt, exec db (Dict.insert row.key row rows) rows)

unfoldable latest : Str → Rows → Time → Time
latest url [] t = t
latest url ((_, c) ∷ rows) t =
    let best = (if ltb t c.fetched_at then c.fetched_at else t) in
    if c.url == url then latest url rows best else latest url rows t

-- The greatest fetch time of a URL's copies, or the zero time.
unfoldable pub cached_feed_fetched_at : Option Str → Str → Rows → Result Error Time
unfolding latest
cached_feed_fetched_at db url rows =
    query (str "query feed cache fetched_at") db (latest url rows 0)

unfoldable keep_fetched_from : Time → Rows → Rows
keep_fetched_from cutoff [] = []
keep_fetched_from cutoff ((k, c) ∷ rows) =
    let rest = keep_fetched_from cutoff rows in
    if ltb c.fetched_at cutoff then rest else (k, c) ∷ rest

unfoldable pub delete_cached_feeds_before : Option Str → Time → Rows → Rows
unfolding keep_fetched_from
delete_cached_feeds_before db cutoff rows = exec db (keep_fetched_from (at_second cutoff) rows) rows
