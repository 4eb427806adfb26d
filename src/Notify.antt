-- ===== src/Notify.antt =====
-- internal/notify/notify.go: the targets of a feed's notifications and their delivery. What a
-- target answers to a post is a parameter.
pub mod Delivery
mod Tests
use tidy_dav.Prelude.{
  ℕ, zero, suc, ◌+◌, ◌≡◌, Str, str, Bool, true, false, ◌&&◌, ◌||◌, not, Option, none, some, List,
  [], ◌∷◌, ◌++◌, eqb, is_empty, ◌==◌, list_eq, nat_eq, if◌then◌else◌,
}
use tidy_dav.Prelude.Int.{ℤ, pos, ltb_ℤ}
use tidy_dav.Prelude.Clock.{Time}

-- The texts of the messages, by what they are made of.
pub data Message : Type 0 where
  matched : Str → Str → Message
  never_fetched : Str → Str → Message
  not_updated : Str → Str → ℕ → Message
  updating_again : Str → Str → Message

pub record Event : Type 0 where
  pub feed : Str
  pub rule : Str
  pub summary : Str
  pub message : Message
  pub time : Time

-- The implementations of `Notifier`, by the URL that each posts to.
pub data Target : Type 0 where
  webhook : Str → Target
  ntfy : Str → Target
  gotify : Str → Target

-- The posts that a target has accepted, the latest first, and the number of posts so far.
pub record Wire : Type 0 where
  pub posts : ℕ
  pub sent : List (Target × Event)

-- The error of a post, if it fails: the post's number, the target and the event.
abbrev pub Post : Type 0
Post = ℕ → Target → Event → Option Str

-- The loop's variables: `delivered` and `lastErr`.
abbrev Tally : Type 0
Tally = ℕ × Option Str

unfoldable posted : Target → Event → Option Str → Tally → Wire → Tally × Wire
posted n ev none (delivered, last) w =
    ((suc delivered, last), record w { posts = suc w.posts; sent = (n, ev) ∷ w.sent })
posted n ev (some e) (delivered, last) w = ((delivered, some e), record w { posts = suc w.posts })

unfoldable post_all : Post → Event → List Target → Tally → Wire → Tally × Wire
unfolding posted
post_all post ev [] tally w = (tally, w)
post_all post ev (n ∷ ns) tally w =
    let (tally', w') = posted n ev (post w.posts n ev) tally w in post_all post ev ns tally' w'

unfoldable verdict : Tally → Option Str
verdict (zero, last) = last
verdict (suc delivered, last) = none

-- `Dispatch`: its error, and what was posted.
unfoldable pub dispatch : Post → List Target → Event → Wire → Option Str × Wire
unfolding post_all verdict
dispatch post targets ev w =
    let (tally, w') = post_all post ev targets (0, none) w in (verdict tally, w')

pub record FeedNotifications : Type 0 where
  pub webhook_url : Str
  pub ntfy_server : Str
  pub ntfy_topic : Str
  pub gotify_server : Str
  pub gotify_token : Str
  pub triggers : List Str
  pub source_stale_hours : ℤ

unfoldable trim_left_slashes : Str → Str
trim_left_slashes [] = []
trim_left_slashes (c ∷ s) = let rest = trim_left_slashes s in if eqb c b'/' then rest else c ∷ s

unfoldable reverse_onto : Str → Str → Str
reverse_onto [] acc = acc
reverse_onto (c ∷ s) acc = reverse_onto s (c ∷ acc)

-- `strings.TrimRight(s, "/")`
unfoldable pub trim_slashes : Str → Str
unfolding trim_left_slashes reverse_onto
trim_slashes s = reverse_onto (trim_left_slashes (reverse_onto s [])) []

unfoldable pub has_target : FeedNotifications → Bool
has_target f =
    not (is_empty f.webhook_url)
    || (not (is_empty f.ntfy_server) && not (is_empty f.ntfy_topic)
        || not (is_empty f.gotify_server) && not (is_empty f.gotify_token))

unfoldable pub enabled : FeedNotifications → Bool
unfolding has_target
enabled f = has_target f && not (is_empty f.triggers)

unfoldable pub stale_enabled : FeedNotifications → Bool
unfolding has_target
stale_enabled f = has_target f && ltb_ℤ (pos 0) f.source_stale_hours

unfoldable triggered_in : List Str → Str → Bool
triggered_in [] rule = false
triggered_in (t ∷ ts) rule = if t == rule then true else triggered_in ts rule

unfoldable pub triggered : FeedNotifications → Str → Bool
unfolding triggered_in
triggered f rule = triggered_in f.triggers rule

-- `Dispatcher` and `NewFromConfig`: the targets that are configured.
unfoldable pub targets : FeedNotifications → List Target
unfolding trim_slashes
targets f =
    (if not (is_empty f.webhook_url) then webhook f.webhook_url ∷ [] else [])
    ++ (if not (is_empty f.ntfy_server) && not (is_empty f.ntfy_topic)
        then ntfy (trim_slashes f.ntfy_server ++ str "/" ++ f.ntfy_topic) ∷ []
        else [])
    ++ (if not (is_empty f.gotify_server) && not (is_empty f.gotify_token)
        then gotify (trim_slashes f.gotify_server ++ str "/message?token=" ++ f.gotify_token) ∷ []
        else [])
