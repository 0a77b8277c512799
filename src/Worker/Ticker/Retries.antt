-- ===== src/Worker/Ticker/Retries.antt =====
-- internal/worker: Start of the webhook worker, over its rounds.
use billing_simulator.Base.{ℕ, ◌≡◌, String, Option, List, ◌++◌, Time}
use billing_simulator.Entity.Errors.{Outcome, returns, fails, panics, overflows, Error, Ensures}
use billing_simulator.Entity.WebhookLog.{WebhookLog}
use billing_simulator.Worker.WebhookRetry.{Config, Meets, Request, process_batch}
use billing_simulator.Worker.WebhookRetry.Attempts.{Answers}
use billing_simulator.Worker.WebhookRetry.Batch.{IsInOrder, process_batch-IsInOrder}
use billing_simulator.Worker.Ticker.{Signal, Progress, run_ticks, end_of, Keeps, run_ticks-Keeps}

-- What a round meets: the instant and the error of GetPendingForRetry, and what is met for each log.
pub record Round : Type 0 where
  pub at : Time
  pub fault : Option Error
  pub meets : WebhookLog → Meets

-- The table of logs, and the requests that have been sent.
pub record State : Type 0 where
  pub logs : List WebhookLog
  pub requests : List (Option Request)

-- A panic ends the process: what the round has done by then is left out.
with_batch : State → Outcome (List WebhookLog × List (Option Request)) → Outcome (Unit {0}) × State
with_batch s (returns (logs, sent)) =
    (returns tt, record { logs = logs; requests = s.requests ++ sent })
with_batch s (fails e) = (fails e, s)
with_batch s panics = (panics, s)
with_batch s overflows = (overflows, s)

module _ (hmac : String → String → String) (decimal : ℕ → String) (error_text : Error → String)
    (c : Config) where
  retry_round : Round → State → Outcome (Unit {0}) × State
  unfolding with_batch process_batch
  retry_round r s =
      with_batch s (process_batch hmac decimal error_text c r.at r.fault r.meets s.logs)

  -- `Start` of WebhookRetryWorker
  unfoldable pub start_retries : (ℕ → Round) → List Signal → State → Progress × State
  unfolding retry_round run_ticks
  start_retries rounds = run_ticks (λ n. retry_round (rounds n)) 0

  with_batch-Keeps :
      (s : State) (o : Outcome (List WebhookLog × List (Option Request)))
      → Ensures o (λ r. IsInOrder c r.0)
      → Keeps (λ t. IsInOrder c t.logs) (with_batch s o)
  unfolding with_batch
  with_batch-Keeps s (returns (logs, sent)) h = h
  with_batch-Keeps s (fails e) h = h
  with_batch-Keeps s panics h = h
  with_batch-Keeps s overflows h = h

  -- Start of WebhookRetryWorker never takes a log past MaxAttempts and never ends by itself: where the
  -- identifiers of the table differ, each of its logs has been tried at least once and MaxAttempts
  -- times at most, nothing else writes the table, and the lookups of endpoints return or fail, this
  -- holds of the table after any rounds, whatever is due, the endpoints answer and the statements do;
  -- the worker waits until Stop or the end of its context, and then returns.
  pub start_retries-IsInOrder :
      (rounds : ℕ → Round) (signals : List Signal) (s : State)
      → ((n : ℕ) (wl : WebhookLog) → Answers ((rounds n).meets wl).endpoint)
      → IsInOrder c s.logs
      → ((start_retries rounds signals s).0 ≡ end_of signals)
        × IsInOrder c (start_retries rounds signals s).1.logs
  unfolding start_retries retry_round
  start_retries-IsInOrder rounds signals s a h =
      run_ticks-Keeps (λ t. IsInOrder c t.logs) (λ n. retry_round (rounds n))
        (λ n t k. with_batch-Keeps t _ (
          process_batch-IsInOrder hmac decimal error_text c (rounds n).at (rounds n).fault
            (rounds n).meets t.logs (a n) k))
        0 signals s h
