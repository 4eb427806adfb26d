-- ===== src/DavSync/Run.antt =====
-- internal/davsync/runner.go: a run of a job and what it writes back, manual runs and the runs that
-- are due.
use tidy_dav.Prelude.{
  Str, str, Bool, true, false, Option, none, some, List, [], ◌∷◌, is_empty, list_eq, nat_eq,
  if◌then◌else◌,
}
use tidy_dav.Prelude.Clock.{Time, at_second}
use tidy_dav.Prelude.Result.{Result, ok, err}
use tidy_dav.Store.Types.{exec}
use tidy_dav.Dav.Types
use tidy_dav.Dav.Types.{
  Collection, Direction, a_to_b, b_to_a, bidirectional, Conflict, newest_wins, source_wins, unset,
  Items, Counts, Options, is_vanished,
}
use tidy_dav.Dav.Bidi.{Outcome}
use tidy_dav.Dav.Sync.{sync}
use tidy_dav.DavSync.{
  Status, blocked, failed, config_error, done, SyncJob, Env, Running, acquire, release, due, Plan,
  build_sync,
}

-- `runStatus`
unfoldable pub run_status : Counts → Option Types.Error → Status
run_status res none = done res
run_status res (some e) = if is_vanished e then blocked e else failed e

-- `notifOrEmpty`, which `UpdateSyncJobRun` writes.
unfoldable pub state_or_empty : Str → Str
state_or_empty raw = if is_empty raw then str "{}" else raw

unfoldable pub update_run : Str → Time → Status → SyncJob → SyncJob
unfolding state_or_empty
update_run raw now status job = record job {
  state = state_or_empty raw;
  last_run_at = at_second now;
  last_status = status;
}

abbrev text_of : Option Str → Str
text_of none = []
text_of (some s) = s

-- A state that is not given, and one that cannot be encoded, is no text.
unfoldable pub raw_state : Env → Option Items → Str
raw_state env none = []
raw_state env (some items) = text_of (env.encode items)

abbrev pub items_or_none : Option Items → Items
items_or_none none = []
items_or_none (some items) = items

-- The state that a run begins with: no items where the text does not decode.
unfoldable pub load : Env → SyncJob → Items
load env job = if is_empty job.state then [] else items_or_none (env.decode job.state)

module _ (env : Env) (db : Option Str) (now : Time) (job : SyncJob) where
  -- A write that the database refuses is only logged.
  unfoldable pub finish : Option Items → Status → SyncJob
  unfolding raw_state update_run
  finish items status = exec db (update_run (raw_state env items) now status job) job

  unfoldable pub run_plan : Result Str Plan → SyncJob
  unfolding finish load run_status
  run_plan (err e) = finish none (config_error e)
  run_plan (ok (a, b, opts)) =
      let r : Outcome a.collection.State b.collection.State =
        sync env.dav a.collection b.collection opts (load env job) a.server b.server in
      finish (some r.items) (run_status r.res r.error)

  -- `runLocked`: the row that it leaves.
  unfoldable pub run_locked : SyncJob
  unfolding run_plan build_sync
  run_locked = run_plan (build_sync env job)

unfoldable run_locked_if : Env → Option Str → Time → SyncJob → Bool → SyncJob
unfolding run_locked
run_locked_if env db now job true = run_locked env db now job
run_locked_if env db now job false = job

-- `runJob`: a job that is running already is left alone.
unfoldable pub run_job : Env → Option Str → Time → SyncJob → Running → SyncJob × Running
unfolding run_locked_if acquire release
run_job env db now job running =
    let (free, taken) = acquire job.id running in
    (run_locked_if env db now job free, if free then release job.id taken else taken)

-- `RunOne`: whether the job could be run.
unfoldable pub run_one : Env → Option Str → Time → SyncJob → Running → Bool × SyncJob × Running
unfolding run_locked_if acquire release
run_one env db now job running =
    let (free, taken) = acquire job.id running in
    (free, run_locked_if env db now job free, if free then release job.id taken else taken)

-- `Run`, on the jobs that are enabled. `now` is the time of the whole run and `ends` the time at
-- which each job's outcome is written.
unfoldable pub run_due :
    Env → (Str → Option Str) → Time → (Str → Time) → List SyncJob → Running → List SyncJob × Running
unfolding run_job due
run_due env db now ends [] running = ([], running)
run_due env db now ends (job ∷ jobs) running =
    let (job', running') =
      (if due job now then run_job env (db job.id) (ends job.id) job running else (job, running)) in
    let (jobs', running'') = run_due env db now ends jobs running' in (job' ∷ jobs', running'')
