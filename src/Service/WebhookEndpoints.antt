-- ===== src/Service/WebhookEndpoints.antt =====
-- internal/service/webhook_endpoint.go: the endpoints of a customer.
pub mod Secrets
pub mod Deletion
use billing_simulator.Base.{ℕ, String, ◌<>◌, slice, Option, none, some, List, [], ◌∷◌, Time}
use billing_simulator.Entity.Errors.{Outcome, returns, fails, message, Error, ◌>>=◌}
use billing_simulator.Entity.Events.{Uuid}
use billing_simulator.Entity.Aggregate.{Draw, encode_hex}
use billing_simulator.Entity.WebhookEndpoint.{WebhookEndpoint, Bytes, new_webhook_endpoint}
use billing_simulator.Repository.WebhookEndpoints
use billing_simulator.Platform.Transaction.{Config, Weather, execute_in_transaction}

-- `generateWebhookSecret`, given the 32 bytes of `rand.Read`, or its error: the secret and its
-- prefix
unfoldable pub generate_webhook_secret : Option (List ℕ) → Outcome (String × String)
unfolding encode_hex
generate_webhook_secret none = fails (message "generate secret")
generate_webhook_secret (some b) =
    let secret = "whsec_" <> encode_hex b in returns (secret, slice secret 0 14)

-- What one attempt of the transaction meets.
pub record Meets : Type 0 where
  pub clock : Time
  pub draw : Draw
  pub fault : Option Error

-- `if len(enabledEvents) > 0`
unfoldable pub choose_events : List Bytes → List Bytes → List Bytes
choose_events [] default = default
choose_events (e ∷ es) default = e ∷ es

-- The function that `CreateEndpoint` runs in its transaction.
unfoldable pub create_endpoint_body :
    Meets
    → String × String
    → Uuid
    → String
    → String
    → List Bytes
    → List WebhookEndpoint
    → Outcome (WebhookEndpoint × List WebhookEndpoint)
unfolding new_webhook_endpoint WebhookEndpoints.create choose_events
create_endpoint_body m (secret, prefix) customer url description enabled_events rows = do
  ep ← new_webhook_endpoint m.draw customer m.clock url prefix secret
  let described = record ep {
    enabled_events = choose_events enabled_events ep.enabled_events;
    description = description;
  }
  rows' ← WebhookEndpoints.create described m.fault rows
  returns (described, rows')

-- The rest of `CreateEndpoint`, behind the secret.
create_with :
    Config
    → (ℕ → Weather)
    → (ℕ → Meets)
    → Uuid
    → String
    → String
    → List Bytes
    → List WebhookEndpoint
    → Outcome (String × String)
    → Outcome WebhookEndpoint × List WebhookEndpoint
unfolding create_endpoint_body execute_in_transaction
create_with c weather m customer url description enabled_events rows (returns secret) =
    execute_in_transaction c weather
      (λ i. create_endpoint_body (m i) secret customer url description enabled_events) rows
create_with c weather m customer url description enabled_events rows (fails e) = (fails e, rows)
create_with c weather m customer url description enabled_events rows Outcome.panics =
    (Outcome.panics, rows)
create_with c weather m customer url description enabled_events rows Outcome.overflows =
    (Outcome.overflows, rows)

-- `CreateEndpoint`
unfoldable pub create_endpoint :
    Config
    → (ℕ → Weather)
    → (ℕ → Meets)
    → Option (List ℕ)
    → Uuid
    → String
    → String
    → List Bytes
    → List WebhookEndpoint
    → Outcome WebhookEndpoint × List WebhookEndpoint
unfolding create_with generate_webhook_secret
create_endpoint c weather m bytes customer url description enabled_events rows =
    create_with c weather m customer url description enabled_events rows
      (generate_webhook_secret bytes)

-- `ListForCustomer`
unfoldable pub list_for_customer :
    Uuid → Option Error → List WebhookEndpoint → Outcome (List WebhookEndpoint)
unfolding WebhookEndpoints.get_by_customer_id
list_for_customer = WebhookEndpoints.get_by_customer_id

-- `DeleteEndpoint`
unfoldable pub delete_endpoint :
    Time → Uuid → Option Error → List WebhookEndpoint → Outcome (List WebhookEndpoint)
unfolding WebhookEndpoints.soft_delete
delete_endpoint = WebhookEndpoints.soft_delete
