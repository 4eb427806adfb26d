-- ===== src/DavSync.antt =====
-- internal/davsync/runner.go: running the sync jobs that are due, one run of a job at a time, and
-- keeping their state. The decoder and encoder of JSON, the clients of the servers and
-- `dav.ParseWindow` are parameters, a status is a value of a type in place of its text.
pub mod Run
pub mod Exclusion
pub mod Due
pub mod Persist
mod Tests
use tidy_dav.Prelude.{
  ℕ, ◌+◌, ◌*◌, ◌≡◌, Str, str, Bool, true, false, not, Option, none, some, List, [], ◌∷◌, is_empty,
  list_eq, nat_eq, ◌==◌, if◌then◌else◌,
}
use tidy_dav.Prelude.Int.{ℤ, pos, leb_ℤ}
use tidy_dav.Prelude.Clock.{Time, is_zero, second, times, elapsed}
use tidy_dav.Prelude.Dict
use tidy_dav.Prelude.Dict.{Dict}
use tidy_dav.Prelude.Result.{Result, ok, err, ◌>>=◌}
use tidy_dav.Store.Types.{exec}
use tidy_dav.Dav.Types
use tidy_dav.Dav.Types.{
  Collection, Direction, a_to_b, b_to_a, bidirectional, Conflict, newest_wins, source_wins, unset,
  Items, Counts, Options, is_vanished,
}
use tidy_dav.Dav.Bidi.{Outcome}
use tidy_dav.Dav.Sync.{sync}

-- What is shown of a run: a tripped guard has a word of its own.
pub data Status : Type 0 where
  never : Status
  blocked failed : Types.Error → Status
  config_error : Str → Status
  done : Counts → Status

-- The columns of `store.SyncJob` that a run reads or writes; the state is a JSON text.
pub record SyncJob : Type 0 where
  pub id : Str
  pub kind : Str
  pub direction : Str
  pub conflict : Str
  pub a_url : Str
  pub a_username : Str
  pub a_password : Str
  pub b_url : Str
  pub b_username : Str
  pub b_password : Str
  pub interval_seconds : ℤ
  pub window_start : Str
  pub window_end : Str
  pub state : Str
  pub last_run_at : Time
  pub last_status : Status

-- A client, with the state of its server.
pub record Remote : Type 1 where
  pub collection : Collection
  pub server : collection.State

pub record Env : Type 1 where
  pub dav : Types.Env
  pub encode : Items → Option Str
  pub decode : Str → Option Items
  pub calendar_uid : Str → Str
  pub calendar_modified : Str → Time
  pub contact_uid : Str → Str
  pub contact_modified : Str → Time
  pub parse_window : Str → Str → Result Str (Time × Time)
  pub new_caldav : Str → Str → Str → Result Str Remote
  pub new_carddav : Str → Str → Str → Result Str Remote

-- `r.running`
abbrev pub Running : Type 0
Running = Dict Str Bool

abbrev flag : Option Bool → Bool
flag none = false
flag (some b) = b

abbrev pub is_running : Str → Running → Bool
is_running id running = flag (Dict.lookup id running)

unfoldable pub acquire : Str → Running → Bool × Running
acquire id running =
    if is_running id running then (false, running) else (true, Dict.insert id true running)

unfoldable pub release : Str → Running → Running
release id running = Dict.erase id running

abbrev default_interval : ℤ
default_interval = pos (15 * 60 * second)

unfoldable pub interval : ℤ → ℤ
interval seconds = let d = times second seconds in if leb_ℤ d (pos 0) then default_interval else d

unfoldable pub due : SyncJob → Time → Bool
due job now =
    if is_zero job.last_run_at
    then true
    else leb_ℤ (interval job.interval_seconds) (elapsed now job.last_run_at)

unfoldable pub read_direction : Str → Result Str Direction
read_direction d =
    if d == str "a-to-b"
    then ok a_to_b
    else if d == str "b-to-a"
    then ok b_to_a
    else if d == str "bidirectional"
    then ok bidirectional
    else err (str "invalid direction")

unfoldable pub read_conflict : Str → Result Str Conflict
read_conflict c =
    if c == str "newest-wins"
    then ok newest_wins
    else if c == str "source-wins"
    then ok source_wins
    else if is_empty c
    then ok unset
    else err (str "invalid conflict")

-- The two clients and the options of a run.
abbrev pub Plan : Type 1
Plan = Remote × Remote × Options

module _ (env : Env) (job : SyncJob) where
  unfoldable calendar_options : Direction → Conflict → Time × Time → Options
  calendar_options d c (from, to) = record {
    direction = d;
    conflict = c;
    uid = some env.calendar_uid;
    modified = some env.calendar_modified;
    href_suffix = str ".ics";
    window_start = from;
    window_end = to;
  }

  unfoldable contact_options : Direction → Conflict → Options
  contact_options d c = record {
    direction = d;
    conflict = c;
    uid = some env.contact_uid;
    modified = some env.contact_modified;
    href_suffix = str ".vcf";
    window_start = 0;
    window_end = 0;
  }

  unfoldable clients : (Str → Str → Str → Result Str Remote) → Options → Result Str Plan
  clients connect opts =
      connect job.a_url job.a_username job.a_password
      >>= (λ a. connect job.b_url job.b_username job.b_password >>= (λ b. ok (a, b, opts)))

  unfoldable by_kind : Direction → Conflict → Result Str Plan
  unfolding clients calendar_options contact_options
  by_kind d c =
      if job.kind == str "caldav"
      then env.parse_window job.window_start job.window_end
        >>= (λ window. clients env.new_caldav (calendar_options d c window))
      else if job.kind == str "carddav"
      then clients env.new_carddav (contact_options d c)
      else err (str "invalid kind")

  unfoldable pub build_sync : Result Str Plan
  unfolding by_kind
  build_sync =
      read_direction job.direction >>= (λ d. read_conflict job.conflict >>= (λ c. by_kind d c))
