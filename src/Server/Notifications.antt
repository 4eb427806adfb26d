-- ===== src/Server/Notifications.antt =====
-- internal/server/notifications.go: a feed's notifications between requests and the database.
use tidy_dav.Prelude.{
  Str, str, Bool, not, ◌&&◌, Option, none, some, List, [], ◌∷◌, is_empty, if◌then◌else◌,
}
use tidy_dav.Prelude.Int.{ℤ, pos, ltb_ℤ}
use tidy_dav.Prelude.Result.{Result, ok}
use tidy_dav.Store.Feeds.{Feed, text_or}
use tidy_dav.Notify.{FeedNotifications}
use tidy_dav.Server.{Env}

pub record NotificationsResponse : Type 0 where
  pub webhook_url : Str
  pub ntfy_server : Str
  pub ntfy_topic : Str
  pub gotify_server : Str
  pub gotify_token_set : Bool
  pub triggers : List Str
  pub source_stale_hours : ℤ

abbrev pub nothing : FeedNotifications
nothing = record {
  webhook_url = [];
  ntfy_server = [];
  ntfy_topic = [];
  gotify_server = [];
  gotify_token = [];
  triggers = [];
  source_stale_hours = pos 0;
}

module _ (env : Env) where
  unfoldable pub parse_notifications : Str → FeedNotifications
  parse_notifications [] = nothing
  parse_notifications (c ∷ raw) = (env.unmarshal_notifications (c ∷ raw)).0

  unfoldable pub to_notifications_response : Str → NotificationsResponse
  unfolding parse_notifications
  to_notifications_response raw =
      let n = parse_notifications raw in
      record {
        webhook_url = n.webhook_url;
        ntfy_server = n.ntfy_server;
        ntfy_topic = n.ntfy_topic;
        gotify_server = n.gotify_server;
        gotify_token_set = not (is_empty n.gotify_token);
        triggers = n.triggers;
        source_stale_hours = n.source_stale_hours;
      }

  -- The notifications of the request, trimmed, with hours that are not negative.
  unfoldable pub requested : FeedNotifications → FeedNotifications
  requested n = record n {
    webhook_url = env.trim_space n.webhook_url;
    ntfy_server = env.trim_space n.ntfy_server;
    ntfy_topic = env.trim_space n.ntfy_topic;
    gotify_server = env.trim_space n.gotify_server;
    source_stale_hours = if ltb_ℤ n.source_stale_hours (pos 0) then pos 0 else n.source_stale_hours;
  }

  abbrev stored_token : Option Feed → Str
  stored_token none = []
  stored_token (some f) = (parse_notifications f.notifications).gotify_token

  -- An omitted token is the stored one, while the channel is configured.
  unfoldable pub keep_token : Option Feed → FeedNotifications → FeedNotifications
  unfolding parse_notifications
  keep_token existing n =
      if is_empty n.gotify_token && not (is_empty n.gotify_server)
      then record n { gotify_token = stored_token existing }
      else n

  abbrev kept_notifications : Option Feed → Str
  kept_notifications none = str "{}"
  kept_notifications (some f) = text_or (str "{}") f.notifications

  -- `buildNotifications`, on the request's DTO, which has the fields of the stored record.
  unfoldable pub build_notifications : Option FeedNotifications → Option Feed → Result Str Str
  unfolding requested keep_token
  build_notifications none existing = ok (kept_notifications existing)
  build_notifications (some n) existing =
      env.marshal_notifications (keep_token existing (requested n))
