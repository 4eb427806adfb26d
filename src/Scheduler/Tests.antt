-- ===== src/Scheduler/Tests.antt =====
-- internal/scheduler/scheduler.go: a job that counts its runs and fails in all but the first.
use tidy_dav.Prelude.{
  ◌≡◌, refl, ℕ, Str, str, Option, none, some, List, [], ◌∷◌, ◌+◌, eqb, if◌then◌else◌,
}
use tidy_dav.Prelude.Int.{pos, negsuc}
use tidy_dav.Scheduler.{
  Job, add_each, job_count, Loop, launched, running, Event, tick, finish, elsewhere,
}

abbrev count_run : ℕ → Option Str × ℕ
count_run n = (if eqb n 0 then none else some (str "e"), n + 1)

abbrev counter : Job ℕ
counter = record { name = str "c"; interval = pos 5; run = some count_run }

-- Only the last of these has an interval and a function.
abbrev candidates : List (Job ℕ)
candidates =
    record { name = str "a"; interval = pos 5; run = none }
    ∷ record { name = str "b"; interval = negsuc 0; run = some count_run }
    ∷ counter
    ∷ []

added : job_count (add_each candidates []) ≡ 1
unfolding add_each job_count
added = refl

-- Two runs, the second of which fails, and a change by another part of the program between them.
abbrev events : List (Event ℕ)
events = tick ∷ finish ∷ elsewhere 7 ∷ tick ∷ finish ∷ []

abbrev second_run : Loop ℕ
second_run = record (launched 8) { phase = running; world = 7 }

abbrev last : Loop ℕ
last = launched 8
