-- ===== src/Scheduler.antt =====
-- internal/scheduler/scheduler.go: jobs on intervals. The loop of a job is a step relation, in which
-- the environment chooses when the ticker fires, when a run ends, what happens elsewhere in the
-- meantime, and when the context ends.
pub mod Alive
mod Tests
use tidy_dav.Prelude.{
  ◌≡◌, Str, Bool, true, false, ◌||◌, Option, none, some, List, [], ◌∷◌, ◌++◌, length, ℕ,
  if◌then◌else◌,
}
use tidy_dav.Prelude.Int.{ℤ, pos, leb_ℤ}

-- A job on a state of the program; its function may be nil. A run ends, with an error or without,
-- and has its effect on the state at its end.
pub record Job (W : Type 0) : Type 0 where
  pub name : Str
  pub interval : ℤ
  pub run : Option (W → Option Str × W)

abbrev is_nil {ℓ} : {A : Type ℓ} → Option A → Bool
is_nil none = true
is_nil (some a) = false

-- `loop` waits in its `select`, is in a run of the job, or has returned.
pub data Phase : Type 0 where
  waiting running returned : Phase

-- What may happen to a loop.
pub data Event (W : Type 0) : Type 0 where
  -- The ticker fires.
  tick : Event W
  -- The run ends.
  finish : Event W
  -- Another part of the program leaves this state.
  elsewhere : W → Event W
  -- `Stop`
  stop : Event W
  -- The context ends that `Start` was given.
  parent_ends : Event W
  -- `<-ctx.Done()`
  done : Event W

module _ {W : Type 0} where
  -- `Add`: a job without an interval or without a function is passed over.
  unfoldable pub add : Job W → List (Job W) → List (Job W)
  add job jobs = if leb_ℤ job.interval (pos 0) || is_nil job.run then jobs else jobs ++ job ∷ []

  -- `Add` on one job after the other.
  unfoldable pub add_each : List (Job W) → List (Job W) → List (Job W)
  unfolding add
  add_each [] jobs = jobs
  add_each (c ∷ cs) jobs = add_each cs (add c jobs)

  -- `Len`
  unfoldable pub job_count : List (Job W) → ℕ
  job_count jobs = length jobs

  -- A run that is over: its error is only logged.
  unfoldable pub run_job : (W → Option Str × W) → W → W
  run_job run w = (run w).1

-- A loop, whether its context has ended, and the state of the program.
pub record Loop (W : Type 0) : Type 0 where
  pub phase : Phase
  pub cancelled : Bool
  pub world : W

-- What `Start` launches for each job.
abbrev pub launched : {W : Type 0} → W → Loop W
launched w = record { phase = waiting; cancelled = false; world = w }

-- `select` takes a case that is ready: a tick may be, also in a context that has ended, and the end
-- of the context once it has. A loop that is in a run sees neither, and one that has returned does
-- nothing more.
pub data Step {W : Type 0} (job : Job W) : Loop W → Event W → Loop W → Type 0 where
  ticks : (l : Loop W) → l.phase ≡ waiting → Step job l tick (record l { phase = running })
  finishes :
      (l : Loop W) (run : W → Option Str × W)
      → l.phase ≡ running
      → job.run ≡ some run
      → Step job l finish (record l { phase = waiting; world = run_job run l.world })
  changes : (l : Loop W) (w : W) → Step job l (elsewhere w) (record l { world = w })
  stops : (l : Loop W) → Step job l stop (record l { cancelled = true })
  ends : (l : Loop W) → Step job l parent_ends (record l { cancelled = true })
  returns :
      (l : Loop W)
      → l.phase ≡ waiting
      → l.cancelled ≡ true
      → Step job l done (record l { phase = returned })

-- The loops that a run of events leads to, the first event first.
pub data Steps {W : Type 0} (job : Job W) : Loop W → List (Event W) → Loop W → Type 0 where
  here : (l : Loop W) → Steps job l [] l
  next :
      {l m n : Loop W} {e : Event W} {es : List (Event W)}
      → Step job l e m
      → Steps job m es n
      → Steps job l (e ∷ es) n
