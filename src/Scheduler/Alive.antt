-- ===== src/Scheduler/Alive.antt =====
-- internal/scheduler/scheduler.go: a job that is registered is run until the context ends.
use tidy_dav.Prelude.{◌≡◌, ◌≢◌, Str, Bool, true, false, Option, some, List, [], ◌∷◌}
use tidy_dav.Scheduler.{
  Job, Loop, Phase, waiting, running, returned, Event, tick, finish, elsewhere, stop, parent_ends,
  done,
}

module _ {W : Type 0} where
  -- The job has a function.
  abbrev HasRun : Job W → Type 0
  HasRun job = (run : W → Option Str × W) × (job.run ≡ some run)

  -- Whether the context ends among the events, by `Stop` or with the one that `Start` was given.
  abbrev pub is_cancelled : List (Event W) → Bool
  is_cancelled [] = false
  is_cancelled (tick ∷ es) = is_cancelled es
  is_cancelled (finish ∷ es) = is_cancelled es
  is_cancelled (elsewhere w ∷ es) = is_cancelled es
  is_cancelled (stop ∷ es) = true
  is_cancelled (parent_ends ∷ es) = true
  is_cancelled (done ∷ es) = is_cancelled es

  -- The state that the runs of a job and the other parts of the program make.
  abbrev pub replay : (W → Option Str × W) → List (Event W) → W → W
  replay run [] w = w
  replay run (tick ∷ es) w = replay run es w
  replay run (finish ∷ es) w = replay run es (run w).1
  replay run (elsewhere v ∷ es) w = replay run es v
  replay run (stop ∷ es) w = replay run es w
  replay run (parent_ends ∷ es) w = replay run es w
  replay run (done ∷ es) w = replay run es w

  -- The events by which a loop comes to the end of a run.
  abbrev pub rest_of_run : Phase → List (Event W)
  rest_of_run waiting = tick ∷ finish ∷ []
  rest_of_run running = finish ∷ []
  rest_of_run returned = []

  module _ (job : Job W) (run : W → Option Str × W) (has : job.run ≡ some run) where
    -- The context has not ended and the loop has not returned.
    abbrev IsAlive : Loop W → Type 0
    IsAlive l = (l.cancelled ≡ false) × (l.phase ≢ returned)
