-- ===== src/Worker/WebhookRetry/Schedule.antt =====
-- When the worker of internal/worker/webhook_retry.go sends a webhook again.
use billing_simulator.Base.{
  ℕ, zero, suc, ◌+◌, ◌-◌, ◌*◌, ◌^◌, ◌≤◌, ◌<◌, ◌≡◌, refl, String, true, false, Option, none, some,
  List, [], ◌∷◌, map, any, All, leb, pos, ℤ, Time, second, add_duration-pos, arith,
}
use billing_simulator.Entity.Errors.{returns, Error, Ensures}
use billing_simulator.Entity.Status.{delivered, failed}
use billing_simulator.Entity.WebhookLog
use billing_simulator.Entity.WebhookLog.{WebhookLog}
use billing_simulator.Entity.WebhookEndpoint.{WebhookEndpoint}
use billing_simulator.Repository.Table.{update_where, update_where-updated}
use billing_simulator.Repository.WebhookLogs.{
  has_id, get_pending_for_retry, is_due, set_outcome, set_failed,
}
use billing_simulator.Worker.WebhookRetry.{
  Config, default_config, Meets, backoff, is_success, request_of, error_message, code_of, settle,
  retry_to, with_request, retry_webhook, retry_all, process_batch,
}

-- The waits of the default configuration are 1, 2, 4 and 8 seconds.
backoff_table : (a : ℕ) → 1 ≤ a → a < 5 → backoff a ≡ returns (pos (2 ^ (a - 1) * second))
unfolding backoff
backoff_table zero h k = absurd (omega arith)
backoff_table (suc zero) h k = refl
backoff_table (suc (suc zero)) h k = refl
backoff_table (suc (suc (suc zero))) h k = refl
backoff_table (suc (suc (suc (suc zero)))) h k = refl
backoff_table (suc (suc (suc (suc (suc a))))) h k = absurd (omega arith)

pub backoff_returns : (a : ℕ) → 1 ≤ a → (delay : ℤ) × (backoff a ≡ returns delay)
unfolding backoff
backoff_returns zero h = absurd (omega arith)
backoff_returns (suc a) h = (_, refl)

pub leb-false→lt : (a b : ℕ) → leb a b ≡ false → b < a
leb-false→lt a b e = ground arith

module _ (hmac : String → String → String) (decimal : ℕ → String)
    (error_text : Error → String) where
  settle-success :
      (c : Config) (now : Time) (m : Meets) (wl : WebhookLog) (logs : List WebhookLog)
      → is_success m.response ≡ true
      → m.fault ≡ none
      → any (has_id wl.id) logs ≡ true
      → settle hmac decimal error_text c now m wl logs
        ≡ returns (
            update_where
              (has_id wl.id)
              (set_outcome
                (WebhookLog.mark_delivered wl (code_of hmac decimal error_text m.response) now))
              logs)
  unfolding settle
  settle-success c now m wl logs s f a = ground arith

  -- Once a webhook has been delivered, and the statement that records it has succeeded, every row
  -- of its log is marked as delivered and is due at no later time.
  pub delivered_is_not_due :
      (c : Config) (now later : Time) (m : Meets) (wl : WebhookLog) (logs : List WebhookLog)
      → is_success m.response ≡ true
      → m.fault ≡ none
      → any (has_id wl.id) logs ≡ true
      → Ensures (settle hmac decimal error_text c now m wl logs) (
          All (λ row.
            has_id wl.id row ≡ true → (row.status ≡ delivered) × (is_due later row ≡ false)))
  unfolding is_due set_outcome WebhookLog.mark_delivered
  delivered_is_not_due c now later m wl logs s f a =
      rw (settle-success c now m wl logs s f a)
        (update_where-updated _ (has_id wl.id) _ logs λ row h. (refl, refl))

  settle-failure :
      (now : Time) (m : Meets) (wl : WebhookLog) (logs : List WebhookLog)
      → is_success m.response ≡ false
      → m.fault ≡ none
      → any (has_id wl.id) logs ≡ true
      → 1 ≤ wl.attempt
      → wl.attempt < 5
      → settle hmac decimal error_text default_config now m wl logs
        ≡ returns (
            update_where
              (has_id wl.id)
              (set_failed
                (error_message hmac decimal error_text m.response)
                (now + 2 ^ (wl.attempt - 1) * second)
                now)
              logs)
  unfolding settle
  settle-failure now m wl logs s f a h k =
      ground (arith, backoff_table wl.attempt, add_duration-pos now (2 ^ (wl.attempt - 1) * second))

  -- In the default configuration, a delivery that fails at attempt a, from the first to the
  -- fourth, puts the log off for 2 ^ (a - 1) seconds: when the statement that records it has
  -- succeeded, its rows are marked as failed, are not due before that moment, and are due from it on.
  pub failed_is_put_off :
      (now later : Time) (m : Meets) (wl : WebhookLog) (logs : List WebhookLog)
      → is_success m.response ≡ false
      → m.fault ≡ none
      → any (has_id wl.id) logs ≡ true
      → 1 ≤ wl.attempt
      → wl.attempt < 5
      → Ensures (settle hmac decimal error_text default_config now m wl logs) (
          All (λ row.
            has_id wl.id row ≡ true
            → (row.status ≡ failed)
              × (is_due later row ≡ leb (now + 2 ^ (wl.attempt - 1) * second) later)))
  unfolding is_due set_failed
  failed_is_put_off now later m wl logs s f a h k =
      rw (settle-failure now m wl logs s f a h k)
        (update_where-updated _ (has_id wl.id) _ logs λ row h. (refl, refl))

  pub settle-exhausted :
      (c : Config) (now : Time) (m : Meets) (wl : WebhookLog) (logs : List WebhookLog)
      → is_success m.response ≡ false
      → c.max_attempts ≤ wl.attempt
      → settle hmac decimal error_text c now m wl logs ≡ returns logs
  unfolding settle
  settle-exhausted c now m wl logs s h = ground arith

  retry_webhook-exhausted :
      (c : Config) (m : Meets) (ep : WebhookEndpoint) (wl : WebhookLog) (logs : List WebhookLog)
      → m.endpoint ≡ returns ep
      → is_success m.response ≡ false
      → c.max_attempts ≤ wl.attempt
      → retry_webhook hmac decimal error_text c m wl logs
        ≡ returns (logs, some (request_of hmac decimal error_text ep wl m.clock))
  unfolding retry_webhook retry_to with_request
  retry_webhook-exhausted c m ep wl logs found s h =
      rw (found, settle-exhausted c m.clock m wl logs s h) refl

  -- The log has used up MaxAttempts, its endpoint exists, and a request to it fails.
  abbrev pub UsedUp :
      Config → (WebhookLog → Meets) → (WebhookLog → WebhookEndpoint) → WebhookLog → Type 0
  UsedUp c meets endpoint wl =
      (c.max_attempts ≤ wl.attempt)
      × ((meets wl).endpoint ≡ returns (endpoint wl))
      × (is_success (meets wl).response ≡ false)

  retry_all-UsedUp :
      (c : Config) (meets : WebhookLog → Meets) (endpoint : WebhookLog → WebhookEndpoint)
      (due logs : List WebhookLog)
      → All (UsedUp c meets endpoint) due
      → retry_all hmac decimal error_text c meets due logs
        ≡ returns (
          logs,
          map
              (λ wl. some (request_of hmac decimal error_text (endpoint wl) wl (meets wl).clock))
              due,
        )
  unfolding retry_all
  retry_all-UsedUp c meets endpoint [] logs h = refl
  retry_all-UsedUp c meets endpoint (wl ∷ due) logs ((used, found, failing), hs) =
      rw
        (
          retry_all,
          retry_webhook-exhausted c (meets wl) (endpoint wl) wl logs found failing used,
          retry_all-UsedUp c meets endpoint due logs hs,
        )
        refl

  -- A log that has used up MaxAttempts is not taken out of the queue. When every log that is due
  -- has, and every endpoint exists and fails, a round of the worker sends each of them again, and
  -- leaves the table as it was.
  pub exhausted_are_sent_again :
      (c : Config) (now : Time) (meets : WebhookLog → Meets)
      (endpoint : WebhookLog → WebhookEndpoint) (fault : Option Error) (due logs : List WebhookLog)
      → get_pending_for_retry now c.batch_size fault logs ≡ returns due
      → All (UsedUp c meets endpoint) due
      → process_batch hmac decimal error_text c now fault meets logs
        ≡ returns (
          logs,
          map
              (λ wl. some (request_of hmac decimal error_text (endpoint wl) wl (meets wl).clock))
              due,
        )
  unfolding process_batch
  exhausted_are_sent_again c now meets endpoint fault due logs found h =
      rw (process_batch, found) (retry_all-UsedUp c meets endpoint due logs h)
