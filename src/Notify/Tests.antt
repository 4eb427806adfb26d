-- ===== src/Notify/Tests.antt =====
-- internal/notify/notify.go: a dispatch to two targets, one of which fails.
use tidy_dav.Prelude.{◌+◌, ◌≡◌, refl, str, none, some, [], ◌∷◌, length, List, ◌++◌}
use tidy_dav.Prelude.Int.{pos}
use tidy_dav.Notify.{
  Target, webhook, ntfy, gotify, FeedNotifications, targets, Event, matched, Wire, Post, dispatch,
}
use tidy_dav.Notify.Delivery.{accepted, IsOutcome, dispatch-IsOutcome}

abbrev ev : Event
ev = record {
  feed = str "waste";
  rule = str "filter";
  summary = str "bins";
  message = matched (str "filter") (str "bins");
  time = 5;
}

abbrev post : Post
post n (webhook url) e = some (str "refused")
post n t e = none

abbrev idle : Wire
idle = record { posts = 0; sent = [] }

one_fails :
    dispatch post (webhook (str "w") ∷ ntfy (str "n") ∷ []) ev idle
    ≡ (none, record { posts = 2; sent = (ntfy (str "n"), ev) ∷ [] })
unfolding dispatch
one_fails = refl

abbrev two : List Target
two = webhook (str "w") ∷ ntfy (str "n") ∷ []

dispatch-IsOutcome_example :
    IsOutcome two idle (dispatch post two ev idle)
    × ((dispatch post two ev idle).1.posts ≡ 0 + length two)
    × ((dispatch post two ev idle).1.sent ≡ accepted post ev 0 two ++ [])
dispatch-IsOutcome_example = dispatch-IsOutcome post ev two idle

abbrev gotify_alone : FeedNotifications
gotify_alone = record {
  webhook_url = [];
  ntfy_server = str "https://ntfy.sh/";
  ntfy_topic = [];
  gotify_server = str "g/";
  gotify_token = str "t";
  triggers = [];
  source_stale_hours = pos 0;
}

gotify_target : targets gotify_alone ≡ gotify (str "g/message?token=t") ∷ []
unfolding targets
gotify_target = refl
