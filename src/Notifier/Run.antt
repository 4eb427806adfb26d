-- ===== src/Notifier/Run.antt =====
-- internal/notifier/notifier.go: `runFeed` and `Run`.
use tidy_dav.Prelude.{
  ℕ, ◌*◌, ◌-◌, Option, none, some, List, [], ◌∷◌, is_empty, list_eq, nat_eq, if◌then◌else◌,
}
use tidy_dav.Prelude.Int.{pos}
use tidy_dav.Prelude.Result.{Result, ok, err}
use tidy_dav.Store.Types
use tidy_dav.Store.Notified.{delete_notified_before}
use tidy_dav.Notify.{FeedNotifications, has_target, enabled, stale_enabled, targets}
use tidy_dav.Notifier.{Env, Feed, World, time, failure, with_ledger, hour, run_matches}
use tidy_dav.Notifier.Stale.{run_stale}

module _ (env : Env) where
  abbrev no_notifications : FeedNotifications
  no_notifications = record {
    webhook_url = [];
    ntfy_server = [];
    ntfy_topic = [];
    gotify_server = [];
    gotify_token = [];
    triggers = [];
    source_stale_hours = pos 0;
  }

  unfoldable pub run_triggers : Feed → FeedNotifications → World → World
  unfolding enabled stale_enabled run_matches run_stale
  run_triggers f cfg w =
      let after = (if enabled cfg then run_matches env f (targets cfg) cfg w else w) in
      (if stale_enabled cfg then run_stale env f (targets cfg) cfg after else after)

  unfoldable pub with_notifications : Feed → Option FeedNotifications → World → World
  unfolding has_target run_triggers
  with_notifications f none w = w
  with_notifications f (some cfg) w = if has_target cfg then run_triggers f cfg w else w

  unfoldable pub run_feed : Feed → World → World
  unfolding with_notifications
  run_feed f w =
      with_notifications f
        (if is_empty f.notifications then some no_notifications else env.decode f.notifications) w

  unfoldable pub run_feeds : List Feed → World → World
  unfolding run_feed
  run_feeds [] w = w
  run_feeds (f ∷ fs) w = run_feeds fs (run_feed f w)

  -- `retention`
  abbrev retention : ℕ
  retention = 30 * 24 * hour

  unfoldable pub prune : World → World
  prune w =
      with_ledger env 1 (delete_notified_before (failure env 0 w) (time env w - retention) w.ledger)
        w

  -- `Run`, on the result of `AllFeeds`.
  unfoldable pub run :
      Result Types.Error (List Feed) → World → Result Types.Error (Unit {0}) × World
  unfolding run_feeds prune
  run (err e) w = (err e, w)
  run (ok fs) w = (ok tt, prune (run_feeds fs w))
