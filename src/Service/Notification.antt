-- ===== src/Service/Notification.antt =====
-- internal/service/notification.go. What the sender and the webhook service answer is an input.
use billing_simulator.Base.{
  String, Bool, ◌<>◌, Option, none, some, List, [], ◌∷◌, str_eq, any, if◌then◌else◌,
}
use billing_simulator.Entity.Errors.{Error}
use billing_simulator.Entity.Events.{Uuid}

-- The cases of the switch
abbrev pub forwarded_types : List String
forwarded_types =
    "customer.created" ∷ "subscription.created" ∷ "subscription.canceled" ∷ "subscription.renewed"
    ∷ "invoice.created" ∷ "invoice.paid" ∷ "invoice.payment_failed" ∷ []

unfoldable pub is_forwarded : String → Bool
is_forwarded event_type = any (str_eq event_type) forwarded_types

-- What is sent for one event: the topic, and the customer, type and payload of the webhooks.
pub record Sent : Type 0 where
  pub topic : String
  pub customer_id : Uuid
  pub event_type : String
  pub payload : String

-- The error that is left: that of the webhooks, or else that of the topic.
unfoldable pub multi_error : Option Error → Option Error → Option Error
multi_error kafka none = kafka
multi_error kafka (some e) = some e

-- `HandleDomainEvent` and `handleEvent`: what it sent, and its error.
unfoldable pub handle_domain_event :
    Option Error → Option Error → String → Uuid → String → Option Sent × Option Error
unfolding is_forwarded multi_error
handle_domain_event kafka webhook event_type customer payload =
    if is_forwarded event_type
    then (
      some (record {
        topic = "billing." <> event_type;
        customer_id = customer;
        event_type = event_type;
        payload = payload;
      }),
      multi_error kafka webhook,
    )
    else (none, none)
