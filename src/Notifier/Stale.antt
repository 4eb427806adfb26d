-- ===== src/Notifier/Stale.antt =====
-- internal/notifier/notifier.go: `runStale`, the outages of sources and their ends.
use tidy_dav.Prelude.{
  ◌/◌, Str, str, Bool, true, false, ◌||◌, Option, none, some, List, [], ◌∷◌, list_eq, nat_eq,
  if◌then◌else◌,
}
use tidy_dav.Prelude.Int.{ℤ, ltb_ℤ, pos_part}
use tidy_dav.Prelude.Clock.{Time, is_zero, times, elapsed}
use tidy_dav.Prelude.Result.{Result, ok, err}
use tidy_dav.Store.Types
use tidy_dav.Store.FeedCache.{cached_feed_fetched_at}
use tidy_dav.Store.Notified.{is_notified}
use tidy_dav.Notify.{
  Event, Message, never_fetched, not_updated, updating_again, Target, FeedNotifications,
}
use tidy_dav.Notifier.{
  Env, Feed, World, stale_key, time, failure, with_ledger, hour, unmark, send, announce,
}

module _ (env : Env) (feed : Feed) (ts : List Target) where
  unfoldable pub stale_event : Str → Message → World → Event
  stale_event rule message w = record {
    feed = feed.name;
    rule = rule;
    summary = feed.name;
    message = message;
    time = time env w;
  }

  unfoldable pub outage : Str → Time → Time → World → Event
  unfolding stale_event
  outage url now fetched w =
      stale_event (str "source_stale")
        (if is_zero fetched
          then never_fetched feed.name (env.redact_url url)
          else not_updated feed.name (env.redact_url url) (pos_part (elapsed now fetched) / hour))
        w

  unfoldable pub after_recovery : Str → Option Str × World → World
  unfolding unmark
  after_recovery key (some e, w) = w
  after_recovery key (none, w) = unmark env feed.id key w

  -- The source is healthy: an outage that was announced is called off.
  unfoldable pub recover : Str → Result Types.Error Bool → World → World
  unfolding stale_event after_recovery send
  recover url (err e) w = w
  recover url (ok false) w = w
  recover url (ok true) w = after_recovery (stale_key env url) (
      send env ts
        (stale_event (str "source_recovered") (updating_again feed.name (env.redact_url url)) w) w)

  unfoldable pub is_stale : ℤ → Time → Time → Bool
  is_stale threshold now fetched = is_zero fetched || ltb_ℤ threshold (elapsed now fetched)

  unfoldable pub healthy : Str → World → World
  unfolding recover
  healthy url w =
      recover url (is_notified (failure env 0 w) feed.id (stale_key env url) w.ledger)
        (with_ledger env 1 w.ledger w)

  unfoldable pub check_source : ℤ → Time → Str → Result Types.Error Time → World → World
  unfolding announce outage healthy
  check_source threshold now url (err e) w = w
  check_source threshold now url (ok fetched) w =
      if is_stale threshold now fetched
      then announce env feed ts (stale_key env url) (outage url now fetched w) w
      else healthy url w

  unfoldable pub run_source : ℤ → Time → Str → World → World
  unfolding check_source
  run_source threshold now url w =
      check_source threshold now url (cached_feed_fetched_at (failure env 0 w) url w.cache)
        (with_ledger env 1 w.ledger w)

  unfoldable pub run_sources : ℤ → Time → List Str → World → World
  unfolding run_source
  run_sources threshold now [] w = w
  run_sources threshold now (url ∷ urls) w =
      run_sources threshold now urls (run_source threshold now url w)

  unfoldable pub run_stale : FeedNotifications → World → World
  unfolding run_sources
  run_stale cfg w = run_sources (times hour cfg.source_stale_hours) (time env w) feed.sources w
