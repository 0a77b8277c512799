-- ===== src/Worker/WebhookRetry.antt =====
-- internal/worker/webhook_retry.go: the worker that sends the webhooks that are due. What the
-- endpoint answers, what the table of endpoints holds and which statements fail are inputs.
pub mod Schedule
pub mod Attempts
pub mod Identity
pub mod Batch
use billing_simulator.Base.{
  ℕ, zero, suc, ◌+◌, ◌-◌, ◌*◌, ◌^◌, ◌/◌, String, ◌<>◌, Bool, true, false, ◌&&◌, Option, none, some,
  List, [], ◌∷◌, ◌++◌, leb, ltb, ℤ, pos, negsuc, pos_part, neg_part, wrap, Time, second,
  add_duration, if◌then◌else◌,
}
use billing_simulator.Entity.Errors.{Outcome, returns, fails, panics, overflows, Error, ◌>>=◌}
use billing_simulator.Entity.Events.{Uuid}
use billing_simulator.Entity.WebhookLog
use billing_simulator.Entity.WebhookLog.{WebhookLog}
use billing_simulator.Entity.WebhookEndpoint.{WebhookEndpoint, sign_payload}
use billing_simulator.Repository.WebhookLogs.{get_pending_for_retry, update, mark_failed}

-- `WebhookRetryConfig`, without the poll interval
pub record Config : Type 0 where
  pub batch_size : ℕ
  pub max_attempts : ℕ

-- `DefaultWebhookRetryConfig`
abbrev pub default_config : Config
default_config = record { batch_size = 50; max_attempts = 5 }

-- What `sender.Send` is called with
pub record Request : Type 0 where
  pub url : String
  pub payload : String
  pub signature : String
  pub timestamp : ℕ

-- What the worker meets while it handles one log: the time that its clock shows, the endpoint that
-- `GetByID` finds, the status code or the error that `Send` gives, and the error of the statement on
-- the log.
pub record Meets : Type 0 where
  pub clock : Time
  pub endpoint : Outcome WebhookEndpoint
  pub response : Outcome ℕ
  pub fault : Option Error

-- `int64(1 << (attempt - 1))` seconds, as a duration; a shift by a negative count panics.
unfoldable pub backoff : ℕ → Outcome ℤ
backoff zero = panics
backoff (suc n) = returns (wrap (scale (wrap (pos (2 ^ n)))))
  where
    scale : ℤ → ℤ
    scale (pos k) = pos (k * second)
    scale (negsuc k) = negsuc (k * second + second - 1)

-- `statusCode >= 200 && statusCode < 300`, with no error
abbrev pub is_success : Outcome ℕ → Bool
is_success (returns code) = leb 200 code && ltb code 300
is_success _ = false

-- What a statement leaves: its rows, or the table as it was, since the worker logs the error.
abbrev pub or_unchanged : List WebhookLog → Outcome (List WebhookLog) → List WebhookLog
or_unchanged logs (returns logs') = logs'
or_unchanged logs _ = logs

module _ (hmac : String → String → String) (decimal : ℕ → String)
    (error_text : Error → String) where
  abbrev pub request_of : WebhookEndpoint → WebhookLog → Time → Request
  request_of ep wl now = record {
    url = wl.target_url;
    payload = wl.payload;
    signature = sign_payload hmac decimal ep wl.payload (now / second);
    timestamp = now / second;
  }

  abbrev error_message : Outcome ℕ → String
  error_message (returns code) = "HTTP " <> decimal code
  error_message (fails e) = error_text e
  error_message _ = "request failed"

  -- After a failure that leaves attempts: the next one is scheduled.
  schedule : WebhookLog → Time → Meets → List WebhookLog → Outcome ℤ → Outcome (List WebhookLog)
  unfolding mark_failed
  schedule wl now m logs (returns delay) = returns (
      or_unchanged logs
        (mark_failed wl.id (error_message m.response) (add_duration now delay) now m.fault logs))
  schedule wl now m logs (fails e) = fails e
  schedule wl now m logs panics = panics
  schedule wl now m logs overflows = overflows

  delivered : WebhookLog → Time → ℕ → Option Error → List WebhookLog → List WebhookLog
  unfolding update WebhookLog.mark_delivered
  delivered wl now code fault logs =
      or_unchanged logs (update (WebhookLog.mark_delivered wl code now) fault logs)

  abbrev code_of : Outcome ℕ → ℕ
  code_of (returns code) = code
  code_of _ = 0

  -- What follows the call of `Send`
  unfoldable pub settle :
      Config → Time → Meets → WebhookLog → List WebhookLog → Outcome (List WebhookLog)
  unfolding schedule delivered backoff
  settle c now m wl logs =
      if is_success m.response
      then returns (delivered wl now (code_of m.response) m.fault logs)
      else if leb c.max_attempts wl.attempt
      then returns logs
      else schedule wl now m logs (backoff wl.attempt)

  pub with_request :
      Request → Outcome (List WebhookLog) → Outcome (List WebhookLog × Option Request)
  with_request r (returns logs) = returns (logs, some r)
  with_request r (fails e) = fails e
  with_request r panics = panics
  with_request r overflows = overflows

  -- `retryWebhook`, with what the lookup of the endpoint gives
  retry_to :
      Config
      → Meets
      → WebhookLog
      → List WebhookLog
      → Outcome WebhookEndpoint
      → Outcome (List WebhookLog × Option Request)
  unfolding with_request settle
  retry_to c m wl logs (returns ep) =
      with_request (request_of ep wl m.clock) (settle c m.clock m wl logs)
  retry_to c m wl logs (fails e) = returns (logs, none)
  retry_to c m wl logs panics = panics
  retry_to c m wl logs overflows = overflows

  -- `retryWebhook`: the table that it leaves, and the request that it sent.
  unfoldable pub retry_webhook :
      Config → Meets → WebhookLog → List WebhookLog → Outcome (List WebhookLog × Option Request)
  unfolding retry_to
  retry_webhook c m wl logs = retry_to c m wl logs m.endpoint

  -- The loop of `processBatch` over the logs that are due, each with what it meets.
  unfoldable pub retry_all :
      Config
      → (WebhookLog → Meets)
      → List WebhookLog
      → List WebhookLog
      → Outcome (List WebhookLog × List (Option Request))
  unfolding retry_webhook
  retry_all c meets [] logs = returns (logs, [])
  retry_all c meets (wl ∷ due) logs = retry_webhook c (meets wl) wl logs >>= λ r.
      retry_all c meets due r.0 >>= λ more. returns (more.0, r.1 ∷ more.1)

  -- `processBatch`
  unfoldable pub process_batch :
      Config
      → Time
      → Option Error
      → (WebhookLog → Meets)
      → List WebhookLog
      → Outcome (List WebhookLog × List (Option Request))
  unfolding retry_all get_pending_for_retry
  process_batch c now fault meets logs = elim (get_pending_for_retry now c.batch_size fault logs) [
    | returns due ↦ retry_all c meets due logs
    | _ ↦ returns (logs, [])
  ]
