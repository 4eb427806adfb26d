-- ===== src/Notifier.antt =====
-- internal/notifier/notifier.go: what a run of the notifier announces, and the ledger that keeps
-- it from being announced again. The database and the targets may fail at any statement or post:
-- the environment says which. The decoder of JSON, `Matches` of the feed service, SHA-256 and
-- `RedactURL` are parameters; lines of the log are left out.
pub mod Stale
pub mod Run
pub mod Once
pub mod Again
pub mod Outage
mod Tests
use tidy_dav.Prelude.{
  ℕ, suc, ◌+◌, ◌*◌, ◌/◌, ◌-◌, ◌≡◌, Str, str, Bool, true, false, ◌||◌, not, Option, none, some, List,
  [], ◌∷◌, ◌++◌, take, is_empty, list_eq, nat_eq, if◌then◌else◌,
}
use tidy_dav.Prelude.Int.{ℤ, pos, ltb_ℤ, pos_part}
use tidy_dav.Prelude.Clock.{Time, is_zero, second, times, elapsed}
use tidy_dav.Prelude.Result.{Result, ok, err}
use tidy_dav.Dav.Href.{hex_encode}
use tidy_dav.Store.Types
use tidy_dav.Store.FeedCache.{Rows, cached_feed_fetched_at}
use tidy_dav.Store.Notified.{
  Ledger, mark_notified, is_notified, unmark_notified, delete_notified_before,
}
use tidy_dav.Notify.{
  Event, Message, matched, never_fetched, not_updated, updating_again, Target, Wire, Post, dispatch,
  FeedNotifications, has_target, enabled, stale_enabled, triggered, targets,
}

pub record MatchedEvent : Type 0 where
  pub summary : Str
  pub uid : Str
  pub start : Str

pub record RuleMatch : Type 0 where
  pub rule : Str
  pub events : List MatchedEvent

-- The parts of `store.Feed` that the notifier reads.
pub record Feed : Type 0 where
  pub id : Str
  pub name : Str
  pub notifications : Str
  pub sources : List Str

-- The database's rows and the number of statements so far, and the posts.
pub record World : Type 0 where
  pub ledger : Ledger
  pub cache : Rows
  pub statements : ℕ
  pub wire : Wire

pub record Env : Type 0 where
  -- The error of a statement, by its number, and the time at which it runs.
  pub db : ℕ → Option Str
  pub now : ℕ → Time
  pub post : Post
  pub decode : Str → Option FeedNotifications
  -- The feed service fetches the sources, which changes the cache.
  pub matches : ℕ → Feed → Rows → Result Str (List RuleMatch) × Rows
  pub sha256 : Str → Str
  pub redact_url : Str → Str

-- `eventKey`
unfoldable pub event_key : MatchedEvent → Str
event_key ev = (if is_empty ev.uid then ev.summary else ev.uid) ++ str "|" ++ ev.start

unfoldable pub match_key : Str → MatchedEvent → Str
unfolding event_key
match_key rule ev = rule ++ str "|" ++ event_key ev

abbrev pub hour : ℕ
hour = 3600 * second

-- A call of the store, with its results and the time of its statements.
module _ (env : Env) where
  -- `staleKey`
  unfoldable pub stale_key : Str → Str
  unfolding hex_encode
  stale_key url = str "source_stale|" ++ take 16 (hex_encode (env.sha256 url))

  abbrev pub time : World → Time
  time w = env.now w.statements

  abbrev pub failure : ℕ → World → Option Str
  failure k w = env.db (w.statements + k)

  abbrev pub with_ledger : ℕ → Ledger → World → World
  with_ledger k ledger w = record w { ledger = ledger; statements = w.statements + k }

  unfoldable pub mark : Str → Str → World → Result Types.Error Bool × World
  mark feed key w =
      let (r, ledger) = mark_notified (failure 0 w) (failure 1 w) (time w) feed key w.ledger in
      (r, with_ledger 2 ledger w)

  unfoldable pub unmark : Str → Str → World → World
  unmark feed key w = with_ledger 1 (unmark_notified (failure 0 w) feed key w.ledger).1 w

  unfoldable pub send : List Target → Event → World → Option Str × World
  send ts ev w = let (r, wire) = dispatch env.post ts ev w.wire in (r, record w { wire = wire })

  module _ (feed : Feed) (ts : List Target) where
    -- Nothing got through: the ledger entry is dropped again.
    unfoldable pub after_dispatch : Str → Option Str × World → World
    unfolding unmark
    after_dispatch key (none, w) = w
    after_dispatch key (some e, w) = unmark feed.id key w

    unfoldable pub after_mark : Str → Event → Result Types.Error Bool × World → World
    unfolding after_dispatch send
    after_mark key ev (err e, w) = w
    after_mark key ev (ok false, w) = w
    after_mark key ev (ok true, w) = after_dispatch key (send ts ev w)

    -- An event is announced if the ledger does not know its key.
    unfoldable pub announce : Str → Event → World → World
    unfolding after_mark mark
    announce key ev w = after_mark key ev (mark feed.id key w)

    -- The clock is read after the two statements of `MarkNotified`.
    unfoldable pub match_event : Str → MatchedEvent → World → Event
    match_event rule ev w = record {
      feed = feed.name;
      rule = rule;
      summary = ev.summary;
      message = matched rule ev.summary;
      time = env.now (w.statements + 2);
    }

    unfoldable pub announce_events : Str → List MatchedEvent → World → World
    unfolding announce match_key match_event
    announce_events rule [] w = w
    announce_events rule (ev ∷ evs) w =
        announce_events rule evs (announce (match_key rule ev) (match_event rule ev w) w)

    unfoldable pub announce_matches : FeedNotifications → List RuleMatch → World → World
    unfolding announce_events
    announce_matches cfg [] w = w
    announce_matches cfg (m ∷ ms) w =
        announce_matches cfg ms
          (if triggered cfg m.rule then announce_events m.rule m.events w else w)

    unfoldable pub with_matches :
        FeedNotifications → Result Str (List RuleMatch) × Rows → World → World
    unfolding announce_matches
    with_matches cfg (err e, rows) w = record w { cache = rows }
    with_matches cfg (ok ms, rows) w = announce_matches cfg ms (record w { cache = rows })

    unfoldable pub run_matches : FeedNotifications → World → World
    unfolding with_matches
    run_matches cfg w = with_matches cfg (env.matches w.statements feed w.cache) w
