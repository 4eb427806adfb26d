-- ===== src/Feed.antt =====
-- internal/feed/service.go: merging the sources of a feed into one calendar. The parser, and events
-- and time zones with the properties that the merge reads and writes, are parameters.
pub mod Merge
pub mod Render
mod Tests
use tidy_dav.Prelude.{
  ℕ, zero, suc, ◌+◌, ◌*◌, ◌≡◌, Str, str, Bool, true, false, not, ◌&&◌, Option, none, some, List, [],
  ◌∷◌, ◌++◌, take, is_empty, contains, eqb, list_eq, nat_eq, if◌then◌else◌,
}
use tidy_dav.Prelude.Int.{ℤ}
use tidy_dav.Prelude.Clock.{Time, is_zero, second, times}
use tidy_dav.Prelude.Decimal.{decimal}
use tidy_dav.Prelude.Dict
use tidy_dav.Prelude.Dict.{Dict}
use tidy_dav.Prelude.Result.{Result, ok, err}
use tidy_dav.Dav.Href.{hex_encode}
use tidy_dav.Store.Feeds.{FeedSource, Feed}
use tidy_dav.Proxy
use tidy_dav.Proxy.{Cache, fetch_auth}

-- What `go-ical` and the functions of internal/ics over it offer of an event and a time zone.
pub record Ical (E T : Type 0) : Type 0 where
  pub uid : E → Str
  pub recurrence_id : E → Str
  pub summary : E → Str
  pub dtstart : E → Str
  pub location : E → Str
  pub set_uid : Str → E → E
  pub has_stamp : E → Bool
  pub set_stamp : Time → E → E
  pub start : E → Option Time
  pub tzid : T → Option Str

-- What a preview shows of an event.
pub record EventSummary : Type 0 where
  pub uid : Str
  pub summary : Str
  pub start : Str
  pub location : Str
  pub description : Str

-- A parsed source: its events and its VTIMEZONE components.
pub record Calendar (E T : Type 0) : Type 0 where
  pub events : List E
  pub timezones : List T

pub record Env (E T : Type 0) : Type 0 where
  pub ical : Ical E T
  pub proxy : Proxy.Env
  pub parse : Str → Option (Calendar E T)
  pub now : Time
  pub put_at : Time

-- The variables of `merge`: the events, latest first, and the sets and maps beside them.
pub record Merged (E T : Type 0) : Type 0 where
  pub events : List E
  pub seen : List Str
  pub sequence : Dict Str ℕ
  pub timezones : Dict Str T
  pub fetched : ℕ

abbrev count_of : Option ℕ → ℕ
count_of none = 0
count_of (some n) = n

-- `time.Unix(0, 0)`
abbrev unix_epoch : Time
unix_epoch = 62135596800 * second

abbrev start_or_epoch : Option Time → Time
start_or_epoch none = unix_epoch
start_or_epoch (some t) = if is_zero t then unix_epoch else t

module _ {E T : Type 0} (env : Env E T) where
  unfoldable pub ensure_stamp : E → E
  ensure_stamp e =
      if env.ical.has_stamp e then e else env.ical.set_stamp (start_or_epoch (env.ical.start e)) e

  unfoldable pub dedup_id : E → Str
  dedup_id e = env.ical.uid e ++ 0 ∷ env.ical.recurrence_id e

  unfoldable pub synthetic_key : Str → E → Str
  unfolding hex_encode
  synthetic_key url e = take 32 (
      hex_encode (
        env.proxy.sha256 (
          url
          ++ 0x1f ∷ env.ical.summary e
          ++ 0x1f ∷ env.ical.dtstart e
          ++ 0x1f ∷ env.ical.location e
          ++ 0x1f ∷ [])))

  unfoldable pub synthetic_uid : Str → ℕ → Str
  unfolding decimal
  synthetic_uid key n =
      if eqb n 0 then key ++ str "@tidydav" else key ++ str "-" ++ decimal n ++ str "@tidydav"

  abbrev push : E → Merged E T → Merged E T
  push e m = record m { events = ensure_stamp e ∷ m.events }

  -- An event without a UID is given one, and kept.
  unfoldable pub add_nameless : Str → E → Merged E T → Merged E T
  unfolding ensure_stamp synthetic_key synthetic_uid
  add_nameless url e m =
      let key = synthetic_key url e in
      let n = count_of (Dict.lookup key m.sequence) in
      push (env.ical.set_uid (synthetic_uid key n) e)
        (record m { sequence = Dict.insert key (n + 1) m.sequence })

  -- The first argument says whether the event's identity has been seen.
  unfoldable pub add_named : Bool → E → Merged E T → Merged E T
  unfolding ensure_stamp
  add_named true e m = m
  add_named false e m = push e (record m { seen = dedup_id e ∷ m.seen })

  -- The first argument says whether the event has no UID.
  unfoldable pub add_event_if : Bool → Str → E → Merged E T → Merged E T
  unfolding add_nameless add_named
  add_event_if true url e m = add_nameless url e m
  add_event_if false url e m = add_named (contains m.seen (dedup_id e)) e m

  unfoldable pub add_event : Str → E → Merged E T → Merged E T
  unfolding add_event_if
  add_event url e m = add_event_if (is_empty (env.ical.uid e)) url e m

  unfoldable pub add_events : Str → List E → Merged E T → Merged E T
  unfolding add_event
  add_events url [] m = m
  add_events url (e ∷ es) m = add_events url es (add_event url e m)

  abbrev add_first : Str → T → Dict Str T → Option T → Dict Str T
  add_first id t zones none = Dict.insert id t zones
  add_first id t zones (some old) = zones

  unfoldable pub add_timezone : T → Option Str → Dict Str T → Dict Str T
  add_timezone t none zones = zones
  add_timezone t (some id) zones =
      if is_empty id then zones else add_first id t zones (Dict.lookup id zones)

  unfoldable pub add_timezones : List T → Dict Str T → Dict Str T
  unfolding add_timezone
  add_timezones [] zones = zones
  add_timezones (t ∷ ts) zones = add_timezones ts (add_timezone t (env.ical.tzid t) zones)

  unfoldable pub add_calendar : Str → Option (Calendar E T) → Merged E T → Merged E T
  unfolding add_events add_timezones
  add_calendar url none m = m
  add_calendar url (some cal) m =
      add_events url cal.events
        (record m { fetched = m.fetched + 1; timezones = add_timezones cal.timezones m.timezones })

  unfoldable pub add_body : Str → Result Proxy.Error (Str × Proxy.Source) → Merged E T → Merged E T
  unfolding add_calendar
  add_body url (err e) m = m
  add_body url (ok (body, source)) m = add_calendar url (env.parse body) m

  module _ {St : Type 0} (cache : Cache St) (ttl : ℤ) where
    -- A source that cannot be fetched or parsed is passed over.
    unfoldable pub add_sources : List FeedSource → Merged E T → St → Merged E T × St
    unfolding add_body
    add_sources [] m s = (m, s)
    add_sources (src ∷ srcs) m s =
        let (r, s') =
          fetch_auth env.proxy cache src.url ttl src.username src.password env.now env.put_at s in
        add_sources srcs (add_body src.url r m) s'

  abbrev pub nothing : Merged E T
  nothing = record { events = []; seen = []; sequence = []; timezones = []; fetched = 0 }

  abbrev pub checked : List FeedSource → Merged E T → Option (Merged E T)
  checked sources m = if eqb m.fetched 0 && not (is_empty sources) then none else some m

  -- `merge`: no result where no source could be fetched.
  unfoldable pub merge : {St : Type 0} → Cache St → Feed → St → Option (Merged E T) × St
  unfolding add_sources
  merge cache f s =
      let (m, s') = add_sources cache (times second f.ttl_seconds) f.sources nothing s in
      (checked f.sources m, s')
