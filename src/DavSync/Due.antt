-- ===== src/DavSync/Due.antt =====
-- internal/davsync/runner.go: when a job is due.
use tidy_dav.Prelude.{ℕ, ◌+◌, ◌-◌, ◌*◌, ◌^◌, ◌≤◌, ◌<◌, ◌↔◌, ◌≡◌, ap, ◌∙◌, true, arith}
use tidy_dav.Prelude.Int.{pos}
use tidy_dav.Prelude.Clock.{second, elapsed, times-pos, elapsed-pos}
use tidy_dav.DavSync.{SyncJob, interval, due}

interval-pos : (n : ℕ) → 0 < n → 1000000000 * n < 2 ^ 63 → interval (pos n) ≡ pos (1000000000 * n)
unfolding interval
interval-pos n p q = rw (times-pos second n q) (ground arith)

-- A job that has run before is due exactly once its interval has passed since then, if the
-- interval is positive, in the range of a duration, and the last run not in the future.
pub due-interval :
    (job : SyncJob) (now n : ℕ)
    → job.interval_seconds ≡ pos n
    → 0 < n
    → 1000000000 * n < 2 ^ 63
    → 0 < job.last_run_at
    → job.last_run_at ≤ now
    → now - job.last_run_at < 2 ^ 63
    → (due job now ≡ true) ↔ (job.last_run_at + 1000000000 * n ≤ now)
unfolding due
due-interval job now n i p q set past range =
    let wait : interval job.interval_seconds ≡ pos (1000000000 * n) =
      ap interval i ∙ interval-pos n p q in
    let gone : elapsed now job.last_run_at ≡ pos (now - job.last_run_at) =
      elapsed-pos now job.last_run_at past range in
    rw (due, wait, gone) (ground arith)
