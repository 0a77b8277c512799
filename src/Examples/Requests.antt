-- ===== src/Examples/Requests.antt =====
-- The theorems on webhook endpoints and on the HTTP API, at concrete inputs.
use billing_simulator.Repository.Table.{timestamp}
use billing_simulator.Base.{
  zero, suc, List, false, length, ◌≤◌, ℕ, ◌≡◌, refl, String, true, false, none, some, [], ◌∷◌,
}
use billing_simulator.Entity.Errors.{Ensures, price_not_found}
use billing_simulator.Entity.Aggregate.{raise_event}
use billing_simulator.Entity.WebhookEndpoint.{WebhookEndpoint}
use billing_simulator.Platform.Transaction.{default_config}
use billing_simulator.Service.WebhookDelivery.{Queue, Round, deliver}
use billing_simulator.Service.WebhookDelivery.Scheduled.{
  active_endpoints, Scheduled, reached, deliver-Scheduled,
}
use billing_simulator.Transport.Response.{
  replied, handle_service_error, respond_service_error, ProductResponse,
}
use billing_simulator.Transport.Response.Statuses.{statuses_compared, is_internal, only_resources}
use billing_simulator.Transport.Resources.{CreateProductRequest, create_product, get_product}
use billing_simulator.Transport.Resources.Roundtrip.{get_product-create_product}
use billing_simulator.Transport.Hub.{
  Event, connects, disconnects, reads, broadcasts, delivers, run, new_hub,
}
use billing_simulator.Transport.Hub.Safety.{AreNew, run_is_safe}
use billing_simulator.Platform.Processor
use billing_simulator.Platform.Processor.{other_error}
use billing_simulator.Examples.Data.{draw, endpoint, meets, calm}

-- Of two rounds, the first has no error, and the INSERT of the log fails in the second.
abbrev rounds : ℕ → Round
rounds zero = record {
  event_id = 90;
  event_text = "0a1b2c3d-";
  event_fault = none;
  draw = draw;
  log_fault = none;
}
rounds k = record {
  event_id = 91;
  event_text = "4e5f6a7b-";
  event_fault = none;
  draw = draw;
  log_fault = some price_not_found;
}

abbrev second_endpoint : WebhookEndpoint
second_endpoint = record endpoint { id = 81; created_at = 90 }

abbrev queue : Queue
queue = record { events = []; logs = [] }

deliver-Scheduled_example :
    Ensures
      (deliver none rounds 5 700 1 "invoice.paid" "{}" (endpoint ∷ second_endpoint ∷ []) queue)
      (Scheduled 5 "invoice.paid" "{}" 700
        (reached rounds 0 (active_endpoints 1 (endpoint ∷ second_endpoint ∷ [])))
        queue)
deliver-Scheduled_example =
    deliver-Scheduled 5 "invoice.paid" "{}" 700 rounds 1 (endpoint ∷ second_endpoint ∷ []) queue

abbrev deleted : WebhookEndpoint
deleted = record endpoint { deleted_at = some 500; enabled = false }

statuses_compared_example :
    (is_internal (handle_service_error {A = String} price_not_found) ≡ true)
    × (is_internal (respond_service_error {A = String} price_not_found) ≡ false)
unfolding only_resources
statuses_compared_example = statuses_compared price_not_found

abbrev request : CreateProductRequest
request = record { name = "Plan"; description = "Monthly" }

get_product-create_product_example :
    let r = create_product raise_event default_config calm (λ i. meets true) (some request) [] in
    (body : ProductResponse) × (r.0 ≡ some (replied 201 body))
    × (get_product body.id none r.1
        ≡ some (replied 200 (record body { created_at = timestamp body.created_at })))
get_product-create_product_example =
    get_product-create_product default_config calm (λ i. meets true) request [] _ _ refl refl refl
      refl refl refl

-- The first attempt fails, and the second succeeds.
abbrev second_succeeds : ℕ → Processor.Weather
second_succeeds (suc zero) = record { outcome = some (other_error "busy"); roll = 7; ends = false }
second_succeeds k = record { outcome = none; roll = 7; ends = false }

abbrev visits : List Event
visits =
    connects 1
    ∷ broadcasts "{}"
    ∷ connects 2
    ∷ delivers
    ∷ disconnects 1
    ∷ disconnects 1
    ∷ reads 2
    ∷ []

run_is_safe_example :
    Ensures
      (run visits new_hub)
      (λ h. ((c : ℕ) → length (h.channel c).waiting ≤ 64) × (length h.queue ≤ 256))
unfolding AreNew
run_is_safe_example = run_is_safe visits (refl, (refl, tt))
