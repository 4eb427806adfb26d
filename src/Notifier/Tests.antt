-- ===== src/Notifier/Tests.antt =====
-- internal/notifier/notifier.go: runs for one feed, and the shape of its ledger.
use tidy_dav.Prelude.{◌≡◌, refl, ◌⊎◌, str, none, some, List, [], ◌∷◌, list_eq, nat_eq, pair_eq}
use tidy_dav.Prelude.Int.{pos}
use tidy_dav.Prelude.Dict
use tidy_dav.Prelude.Result.{ok}
use tidy_dav.Notify.{webhook, Event, matched, FeedNotifications, triggered, dispatch, targets}
use tidy_dav.Store.Notified.{mark_notified}
use tidy_dav.Notifier.{Env, Feed, World, MatchedEvent, RuleMatch, announce, run_matches}
use tidy_dav.Notifier.Stale.{check_source, is_stale}
use tidy_dav.Notifier.Run.{run_feed}
use tidy_dav.Notifier.Once.{IsKnown, announce-IsRecorded}
use tidy_dav.Notifier.Again.{NeverFails, run_matches-again}
use tidy_dav.Notifier.Outage.{announced, check_source-announced, check_source-quiet}

abbrev cfg : FeedNotifications
cfg = record {
  webhook_url = str "w";
  ntfy_server = [];
  ntfy_topic = [];
  gotify_server = [];
  gotify_token = [];
  triggers = str "filter" ∷ [];
  source_stale_hours = pos 0;
}

abbrev bins : MatchedEvent
bins = record { summary = str "bins"; uid = str "1"; start = str "20260101" }

abbrev found : List RuleMatch
found = record { rule = str "filter"; events = bins ∷ [] } ∷ []

abbrev env : Env
env = record {
  db = λ k. none;
  now = λ k. 5000000000;
  post = λ k n ev. none;
  decode = λ s. some cfg;
  matches = λ k f rows. (ok found, rows);
  sha256 = λ s. s;
  redact_url = λ s. s;
}

abbrev feed : Feed
feed = record { id = str "f"; name = str "waste"; notifications = str "{}"; sources = str "u" ∷ [] }

abbrev start : World
start = record { ledger = []; cache = []; statements = 0; wire = record { posts = 0; sent = [] } }

env-NeverFails : NeverFails env
env-NeverFails = (λ k. refl, λ k n ev. refl)

abbrev ev : Event
ev = record {
  feed = str "waste";
  rule = str "filter";
  summary = str "bins";
  message = matched (str "filter") (str "bins");
  time = 5000000000;
}

first_run : run_feed env feed start ≡ record start {
  ledger = ((str "f", str "filter|1|20260101"), 5000000000) ∷ [];
  statements = 2;
  wire = record { posts = 1; sent = (webhook (str "w"), ev) ∷ [] };
}
unfolding run_feed triggered list_eq nat_eq mark_notified Dict.lookup dispatch targets Dict.insert
first_run = refl

announce-IsRecorded_example :
    ((announce env feed (webhook (str "w") ∷ []) (str "k") ev start).wire.sent ≡ [])
    ⊎ IsKnown feed (str "k") (announce env feed (webhook (str "w") ∷ []) (str "k") ev start)
announce-IsRecorded_example =
    announce-IsRecorded env feed (webhook (str "w") ∷ []) (str "k") ev start

run_matches-again_example :
    (run_matches env feed
      (webhook (str "w") ∷ [])
      cfg
      (run_matches env feed (webhook (str "w") ∷ []) cfg start)).wire
    ≡ (run_matches env feed (webhook (str "w") ∷ []) cfg start).wire
run_matches-again_example =
    run_matches-again env env feed (webhook (str "w") ∷ []) (webhook (str "w") ∷ []) cfg start found
      [] _ env-NeverFails refl refl

check_source-announced_example :
    announced env feed
      (str "u")
      (check_source env feed (webhook (str "w") ∷ []) (pos 3) 9 (str "u") (ok 5) start)
    ≡ is_stale env feed (webhook (str "w") ∷ []) (pos 3) 9 5
check_source-announced_example =
    check_source-announced env feed (webhook (str "w") ∷ []) env-NeverFails (pos 3) 9 5 (str "u")
      start

check_source-quiet_example :
    ((check_source env feed (webhook (str "w") ∷ []) (pos 3) 7 (str "u") (ok 5) start).wire
      ≡ start.wire)
    × (announced env feed
          (str "u")
          (check_source env feed (webhook (str "w") ∷ []) (pos 3) 7 (str "u") (ok 5) start)
        ≡ announced env feed (str "u") start)
unfolding is_stale Dict.lookup
check_source-quiet_example =
    check_source-quiet env feed (webhook (str "w") ∷ []) (pos 3) 7 5 (str "u") start refl
