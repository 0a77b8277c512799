-- ===== src/Service/WebhookEndpoints/Secrets.antt =====
-- internal/service/webhook_endpoint.go and internal/repository/webhook_endpoint.go: what becomes of
-- the secret of an endpoint.
use billing_simulator.Base.{ℕ, ◌≡◌, refl, String, ◌<>◌, Option, List}
use billing_simulator.Entity.Errors.{returns, Error, webhook_endpoint_not_found}
use billing_simulator.Entity.Events.{Uuid}
use billing_simulator.Entity.WebhookEndpoint.{WebhookEndpoint, sign_payload}
use billing_simulator.Repository.Table.{find_first-scanned}
use billing_simulator.Repository.WebhookEndpoints

-- An endpoint that GetByID has loaded, whatever the table holds, signs a payload with the empty key:
-- the secret that its customer was given is not in the signature.
pub loaded_endpoints_sign_with_no_secret :
    (hmac : String → String → String) (decimal : ℕ → String) (id : Uuid) (fault : Option Error)
    (rows : List WebhookEndpoint) (e : WebhookEndpoint) (payload : String) (timestamp : ℕ)
    → WebhookEndpoints.get_by_id id fault rows ≡ returns e
    → sign_payload hmac decimal e payload timestamp
      ≡ "t=" <> (decimal timestamp <> (",v1=" <> hmac "" (decimal timestamp <> ("." <> payload))))
unfolding WebhookEndpoints.get_by_id WebhookEndpoints.scan_row sign_payload
loaded_endpoints_sign_with_no_secret hmac decimal id fault rows e payload timestamp h =
    let empty : e.secret ≡ "" =
      find_first-scanned (λ x. x.secret ≡ "") webhook_endpoint_not_found _ WebhookEndpoints.scan_row
        fault rows e h λ x. refl in
    rw empty refl
