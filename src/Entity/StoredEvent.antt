-- ===== src/Entity/StoredEvent.antt =====
-- internal/entity/event.go: an event as its table keeps it.
use billing_simulator.Base.{String, Option, none, some, Time}
use billing_simulator.Entity.Errors.{Outcome, returns, fails, message, ◌>>=◌}
use billing_simulator.Entity.Events.{Uuid}
use billing_simulator.Entity.Aggregate.{Draw, generate_public_id}

-- The payload is the text of its JSON.
pub record Event : Type 0 where
  pub id : Uuid
  pub public_id : String
  pub event_type : String
  pub api_version : String
  pub payload : String
  pub idempotency_key : Option String
  pub created_at : Time

-- `NewEvent`, given what `json.Marshal` makes of the payload
unfoldable pub new_event : Draw → String → Option String → Time → Outcome Event
unfolding generate_public_id
new_event d event_type payload now = do
  public ← generate_public_id "evt" d
  text ← (elim payload [ none ↦ fails (message "json") | some text ↦ returns text ])
  returns (record {
    id = d.uuid;
    public_id = public;
    event_type = event_type;
    api_version = "2024-01-01";
    payload = text;
    idempotency_key = none;
    created_at = now;
  })
