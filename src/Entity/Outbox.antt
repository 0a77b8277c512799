-- ===== src/Entity/Outbox.antt =====
-- internal/entity/outbox_event.go: an event that waits to be published.
use billing_simulator.Base.{ℕ, ◌+◌, String, Bool, true, false, Option, none, some, Time}
use billing_simulator.Entity.Status.{event_name}
use billing_simulator.Entity.Events.{
  Uuid, DomainEvent, event_type, occurred_on, aggregate_id, aggregate_type,
}

-- The payload is the text of its JSON.
pub record OutboxEvent : Type 0 where
  pub id : Uuid
  pub event_type : String
  pub aggregate_id : Uuid
  pub aggregate_type : String
  pub payload : String
  pub occurred_at : Time
  pub processed : Bool
  pub processed_at : Option Time
  pub attempt : ℕ
  pub next_attempt_at : Option Time
  pub error : Option String
  pub created_at : Time

-- `NewOutboxEvent`, with the identifier that `uuid.New` draws
unfoldable pub new_outbox_event : Uuid → DomainEvent → Time → String → OutboxEvent
unfolding event_type occurred_on aggregate_id aggregate_type event_name
new_outbox_event id event now payload = record {
  id = id;
  event_type = event_name (event_type event);
  aggregate_id = aggregate_id event;
  aggregate_type = aggregate_type event;
  payload = payload;
  occurred_at = occurred_on event;
  processed = false;
  processed_at = none;
  attempt = 0;
  next_attempt_at = none;
  error = none;
  created_at = now;
}

-- `MarkProcessed`
unfoldable pub mark_processed : OutboxEvent → Time → OutboxEvent
mark_processed e now = record e { processed = true; processed_at = some now }

-- `MarkFailed`
unfoldable pub mark_failed : OutboxEvent → String → Time → OutboxEvent
mark_failed e message next_retry = record e {
  attempt = e.attempt + 1;
  next_attempt_at = some next_retry;
  error = some message;
}
