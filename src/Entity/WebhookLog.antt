-- ===== src/Entity/WebhookLog.antt =====
-- internal/entity/webhook_log.go: one delivery of an event to an endpoint.
use billing_simulator.Base.{ℕ, ◌+◌, String, Option, none, some, Time, leb, if◌then◌else◌}
use billing_simulator.Entity.Errors.{Outcome, returns, ◌>>=◌}
use billing_simulator.Entity.Status.{WebhookStatus, pending, delivered, failed}
use billing_simulator.Entity.Events.{Uuid}
use billing_simulator.Entity.Aggregate.{Draw, generate_public_id}

-- The payload is the text of its JSON.
pub record WebhookLog : Type 0 where
  pub id : Uuid
  pub public_id : String
  pub event_id : Uuid
  pub endpoint_id : Uuid
  pub trace_id : Uuid
  pub event_type : String
  pub payload : String
  pub target_url : String
  pub status : WebhookStatus
  pub response_code : Option ℕ
  pub response_body : String
  pub attempt : ℕ
  pub max_attempts : ℕ
  pub error_message : Option String
  pub next_attempt_at : Time
  pub delivered_at : Option Time
  pub created_at : Time
  pub updated_at : Time

-- `NewWebhookLog`
unfoldable pub new_webhook_log :
    Draw → Uuid → Uuid → Uuid → String → String → String → Time → Outcome WebhookLog
unfolding generate_public_id
new_webhook_log d event endpoint trace event_type payload url now = do
  public ← generate_public_id "wh" d
  returns (record {
    id = d.uuid;
    public_id = public;
    event_id = event;
    endpoint_id = endpoint;
    trace_id = trace;
    event_type = event_type;
    payload = payload;
    target_url = url;
    status = pending;
    response_code = none;
    response_body = "";
    attempt = 1;
    max_attempts = 5;
    error_message = none;
    next_attempt_at = now;
    delivered_at = none;
    created_at = now;
    updated_at = now;
  })

-- `MarkDelivered`
unfoldable pub mark_delivered : WebhookLog → ℕ → Time → WebhookLog
mark_delivered wl code now = record wl {
  status = delivered;
  response_code = some code;
  error_message = none;
  delivered_at = some now;
  updated_at = now;
}

-- `MarkFailed`
unfoldable pub mark_failed : WebhookLog → String → Time → Time → WebhookLog
mark_failed wl message now next_attempt = record wl {
  error_message = some message;
  attempt = wl.attempt + 1;
  next_attempt_at = next_attempt;
  updated_at = now;
  status = if leb wl.max_attempts (wl.attempt + 1) then failed else pending;
}
