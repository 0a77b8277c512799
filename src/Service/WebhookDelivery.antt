-- ===== src/Service/WebhookDelivery.antt =====
-- internal/service/webhook.go: an event of a customer becomes one log for each of the customer's
-- endpoints, which the worker that retries webhooks sends. The logger is left out.
pub mod Scheduled
use billing_simulator.Base.{ℕ, suc, String, ◌<>◌, slice, Option, none, some, List, [], ◌∷◌, Time}
use billing_simulator.Entity.Errors.{Outcome, returns, fails, panics, overflows, Error, ◌>>=◌}
use billing_simulator.Entity.Events.{Uuid}
use billing_simulator.Entity.Aggregate.{Draw}
use billing_simulator.Entity.StoredEvent.{Event}
use billing_simulator.Entity.WebhookEndpoint.{WebhookEndpoint}
use billing_simulator.Entity.WebhookLog.{WebhookLog, new_webhook_log}
use billing_simulator.Repository.Events
use billing_simulator.Repository.WebhookEndpoints
use billing_simulator.Repository.WebhookLogs

-- The two tables that `Deliver` writes.
pub record Queue : Type 0 where
  pub events : List Event
  pub logs : List WebhookLog

-- What one round of the loop meets: the identifier of the event, the UUID of its public
-- identifier as text, what the constructor of the log draws, and the errors of the two INSERTs.
pub record Round : Type 0 where
  pub event_id : Uuid
  pub event_text : String
  pub event_fault : Option Error
  pub draw : Draw
  pub log_fault : Option Error

-- An error is logged, and the loop goes on with what there is.
unfoldable pub or_skip : {A : Type 0} → Outcome A → Queue → (A → Outcome Queue) → Outcome Queue
or_skip (returns a) q rest = rest a
or_skip (fails e) q rest = returns q
or_skip panics q rest = panics
or_skip overflows q rest = overflows

-- The event that one round makes.
unfoldable pub event_of : Round → String → String → Time → Event
event_of r event_type payload now = record {
  id = r.event_id;
  public_id = "evt_" <> slice r.event_text 0 8;
  event_type = event_type;
  api_version = "";
  payload = payload;
  idempotency_key = none;
  created_at = now;
}

-- One round of the loop of `Deliver`
unfoldable pub deliver_to :
    Round → Uuid → String → String → Time → WebhookEndpoint → Queue → Outcome Queue
unfolding or_skip event_of new_webhook_log Events.create WebhookLogs.create
deliver_to r trace event_type payload now ep q =
    let event = event_of r event_type payload now in
    or_skip (Events.create event r.event_fault q.events) q λ events.
      let stored = record q { events = events } in
      or_skip (new_webhook_log r.draw event.id ep.id trace event_type payload ep.url now) stored
        λ wl.
          or_skip (WebhookLogs.create wl r.log_fault stored.logs) stored
            λ logs. returns (record stored { logs = logs })

-- The loop of `Deliver`, by the number of the round.
unfoldable pub deliver_each :
    (ℕ → Round) → ℕ → Uuid → String → String → Time → List WebhookEndpoint → Queue → Outcome Queue
unfolding deliver_to
deliver_each rounds k trace event_type payload now [] q = returns q
deliver_each rounds k trace event_type payload now (ep ∷ eps) q =
    deliver_to (rounds k) trace event_type payload now ep q
    >>= deliver_each rounds (suc k) trace event_type payload now eps

-- `Deliver`, given the error of its SELECT, its trace identifier and its reading of the clock
unfoldable pub deliver :
    Option Error
    → (ℕ → Round)
    → Uuid
    → Time
    → Uuid
    → String
    → String
    → List WebhookEndpoint
    → Queue
    → Outcome Queue
unfolding deliver_each WebhookEndpoints.get_active_by_customer_id
deliver fault rounds trace now customer event_type payload rows q = do
  eps ← WebhookEndpoints.get_active_by_customer_id customer fault rows
  deliver_each rounds 0 trace event_type payload now eps q
