-- ===== src/Worker/Cleanup.antt =====
-- internal/worker/cleanup.go: the worker that calls a cleanup function at each tick, over whatever
-- that function works on.
pub mod Outbox
use billing_simulator.Base.{
  ℕ, zero, suc, Bool, true, false, Option, none, some, List, [], ◌∷◌, ◌++◌, Duration,
}
use billing_simulator.Worker.Ticker.{
  Signal, context_done, stop_requested, tick, Progress, waiting, stopped, crashed,
}
use billing_simulator.Entity.Errors.{Outcome, returns, fails, panics, overflows, Error}

-- `CleanupWorker`, but for its log and its interval, which is the ticker's.
pub record CleanupWorker (S : Type 0) : Type 0 where
  pub retention : Duration
  pub cleanup_fn : Duration → S → Outcome ℕ × S

-- What a tick logs.
pub data Line : Type 0 where
  cleanup_failed : Error → Line
  cleanup_completed : ℕ → Line

-- The log line of an answer; a count of 0 is not logged.
report : Outcome ℕ → List Line
report (returns zero) = []
report (returns (suc n)) = cleanup_completed (suc n) ∷ []
report (fails e) = cleanup_failed e ∷ []
report panics = []
report overflows = []

-- A panic of the cleanup function ends the worker.
after_tick : Outcome ℕ → Progress
after_tick panics = crashed
after_tick overflows = crashed
after_tick _ = waiting

module _ {S : Type 0} (w : CleanupWorker S) where
  -- What the function answers, with the state that it leaves, and the loop of `Start` behind it.
  unfoldable pub go_on_from :
      List Line
      → Outcome ℕ × S
      → (List Line → S → Progress × List Line × S)
      → Progress × List Line × S
  unfolding report after_tick
  go_on_from lines (r, s) rest = elim (after_tick r) [
    | waiting ↦ rest (lines ++ report r) s
    | stopped ↦ (stopped, lines, s)
    | crashed ↦ (crashed, lines, s)
  ]

  -- `Start`, with the lines that it has logged so far
  unfoldable pub start : List Signal → List Line → S → Progress × List Line × S
  unfolding go_on_from
  start [] lines s = (waiting, lines, s)
  start (context_done ∷ signals) lines s = (stopped, lines, s)
  start (stop_requested ∷ signals) lines s = (stopped, lines, s)
  start (tick ∷ signals) lines s =
      go_on_from lines (w.cleanup_fn w.retention s) λ lines' s'. start signals lines' s'
