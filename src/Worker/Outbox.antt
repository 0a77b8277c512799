-- ===== src/Worker/Outbox.antt =====
-- internal/worker/outbox_worker.go: the workers that take events from the outbox and hand them to
-- NotificationService. The store is an interface of the source, `OutboxPoller`, and is one here: its
-- MarkFailed has no counterpart in internal/repository/outbox.go, whose method of that name takes
-- the number of the attempt as well. Reading a customer from a payload is json.Unmarshal's, and the
-- text of an error is its own.
pub mod Workers
pub mod Memory
pub mod Delivery
pub mod Rounds
pub mod Routing
use billing_simulator.Base.{
  ℕ, zero, suc, ◌≡◌, ◌*◌, ◌<>◌, String, Bool, true, false, Option, none, some, List, [], ◌∷◌, ◌++◌,
  ◌⊎◌, inl, inr, Duration, pos, second, if◌then◌else◌,
}
use billing_simulator.Entity.Errors.{Outcome, returns, fails, panics, overflows, Error}
use billing_simulator.Entity.Events.{Uuid}
use billing_simulator.Entity.Outbox.{OutboxEvent}
use billing_simulator.Service.Notification.{Sent, handle_domain_event}

-- `OutboxPoller`, on a state of the store: an error, or the value, and the state that is left.
pub record OutboxPoller (S : Type 0) : Type 0 where
  pub get_unprocessed : ℕ → Duration → S → Outcome (List OutboxEvent) × S
  pub mark_processed : Uuid → S → Option Error × S
  pub mark_failed : Uuid → String → S → Option Error × S
  pub delete_old_processed : Duration → S → Outcome ℕ × S

pub record OutboxProcessorConfig : Type 0 where
  pub poll_interval : Duration
  pub batch_size : ℕ
  pub min_age : Duration
  pub max_retries : ℕ
  pub worker_count : ℕ
  pub cleanup_interval : Duration
  pub retention_period : Duration

-- `DefaultOutboxProcessorConfig`
abbrev pub default_outbox_config : OutboxProcessorConfig
default_outbox_config = record {
  poll_interval = pos second;
  batch_size = 100;
  min_age = pos 0;
  max_retries = 5;
  worker_count = 5;
  cleanup_interval = pos (3600 * second);
  retention_period = pos (24 * 3600 * second);
}

-- What the parts outside answer while one event is handled: the sender's error, and that of the
-- webhook service.
pub record Answers : Type 0 where
  pub kafka : Option Error
  pub webhook : Option Error

-- A call of HandleDomainEvent: the event, its customer, what was sent, and the error.
pub record Handled : Type 0 where
  pub event : OutboxEvent
  pub customer : Uuid
  pub sent : Option Sent
  pub error : Option Error

-- How an event is to be marked.
pub data Mark : Type 0 where
  as_processed : Mark
  as_failed : String → Mark

module _ {S : Type 0} (outbox : OutboxPoller S) where
  -- The call of MarkProcessed, or `markFailed`: an error is logged only.
  unfoldable pub mark : Mark → OutboxEvent → S → S
  mark as_processed e s = (outbox.mark_processed e.id s).1
  mark (as_failed text) e s = (outbox.mark_failed e.id text s).1

  -- A tick of `cleanupWorker`
  unfoldable pub clean_up : OutboxProcessorConfig → S → S
  clean_up c s = (outbox.delete_old_processed c.retention_period s).1

module _ (unmarshal : String → Error ⊎ Option Uuid) (error_text : Error → String) where
  customer_or_nil : Error ⊎ Option Uuid → Error ⊎ Uuid
  customer_or_nil (inl e) = inl e
  customer_or_nil (inr none) = inr 0
  customer_or_nil (inr (some customer)) = inr customer

  -- `extractCustomerID`, where a payload without a customer has the zero UUID
  unfoldable pub extract_customer_id : OutboxEvent → Error ⊎ Uuid
  unfolding customer_or_nil
  extract_customer_id e = customer_or_nil (unmarshal e.payload)

  mark_of : Option Error → Mark
  mark_of none = as_processed
  mark_of (some e) = as_failed ("handle: " <> error_text e)

  -- The end of `processEvent` from its call of HandleDomainEvent on.
  unfoldable pub handle_for :
      Answers → OutboxEvent → Error ⊎ Uuid → List Handled → Mark × List Handled
  unfolding mark_of handle_domain_event
  handle_for a e (inl error) log = (as_failed ("extract customerID: " <> error_text error), log)
  handle_for a e (inr customer) log =
      let (sent, error) = handle_domain_event a.kafka a.webhook e.event_type customer e.payload in
      (
        mark_of error,
        log ++ record { event = e; customer = customer; sent = sent; error = error } ∷ [],
      )

  -- `processEvent` up to its mark, with the calls of HandleDomainEvent so far
  unfoldable pub handle_event : Answers → OutboxEvent → List Handled → Mark × List Handled
  unfolding handle_for extract_customer_id
  handle_event a e log = handle_for a e (extract_customer_id e) log

  module _ {S : Type 0} (outbox : OutboxPoller S) where
    marked : OutboxEvent → Mark × List Handled → S → List Handled × S
    unfolding mark
    marked e (m, log) s = (log, mark outbox m e s)

    -- `processEvent`
    unfoldable pub process_event : Answers → OutboxEvent → List Handled × S → List Handled × S
    unfolding handle_event marked
    process_event a e (log, s) = marked e (handle_event a e log) s

    -- The loop of `processBatch`, with what is answered to each event, by its number, and whether the
    -- context has ended before it.
    unfoldable pub process_each :
        (ℕ → Bool) → (ℕ → Answers) → ℕ → List OutboxEvent → List Handled × S → List Handled × S
    unfolding process_event
    process_each ended a n [] w = w
    process_each ended a n (e ∷ es) w =
        let rest = process_each ended a (suc n) es (process_event (a n) e w) in
        if ended n then w else rest

    process_found :
        (ℕ → Bool)
        → (ℕ → Answers)
        → Outcome (List OutboxEvent)
        → List Handled × S
        → List Handled × S
    unfolding process_each
    process_found ended a (returns es) w = process_each ended a 0 es w
    process_found ended a _ w = w

    -- `processBatch`
    unfoldable pub process_outbox_batch :
        OutboxProcessorConfig → (ℕ → Bool) → (ℕ → Answers) → List Handled × S → List Handled × S
    unfolding process_found
    process_outbox_batch c ended a (log, s) =
        let (answer, s') = outbox.get_unprocessed c.batch_size c.min_age s in
        process_found ended a answer (log, s')
