-- ===== src/Service/EventDispatcher/Customers.antt =====
-- Which events name their customer in the payload, and which are sent on.
use billing_simulator.Base.{
  ◌≡◌, refl, String, Option, none, some, List, [], ◌∷◌, str_eq, if◌then◌else◌,
}
use billing_simulator.Entity.Status.{event_name}
use billing_simulator.Entity.Events.{
  Uuid, DomainEvent, event_type, customer_was_created, customer_was_updated, product_was_created,
  product_was_updated, price_was_created, price_was_updated, subscription_was_created,
  subscription_was_canceled, subscription_was_renewed, subscription_was_updated,
  invoice_was_created, invoice_was_paid, invoice_payment_has_failed, payment_intent_has_succeeded,
  payment_intent_has_failed,
}
use billing_simulator.Service.EventDispatcher.{Field, uuid, Dto, fields, raw, to_dto}
use billing_simulator.Service.Notification.{is_forwarded}

-- The customer that an event is about, if its struct says so.
abbrev pub customer_of : DomainEvent → Option Uuid
customer_of (customer_was_created e) = some e.customer_id
customer_of (customer_was_updated e) = some e.customer_id
customer_of (subscription_was_created e) = some e.customer_id
customer_of (subscription_was_canceled e) = some e.customer_id
customer_of (subscription_was_renewed e) = some e.customer_id
customer_of (subscription_was_updated e) = some e.customer_id
customer_of (invoice_was_created e) = some e.customer_id
customer_of (invoice_was_paid e) = some e.customer_id
customer_of (invoice_payment_has_failed e) = some e.customer_id
customer_of (payment_intent_has_succeeded e) = some e.customer_id
customer_of (payment_intent_has_failed e) = some e.customer_id
customer_of _ = none

lookup : String → List (String × Field) → Option Field
lookup key [] = none
lookup key ((k, f) ∷ fs) = if str_eq key k then some f else lookup key fs

-- The field of a payload under a key
unfoldable pub field_of : String → Dto → Option Field
unfolding lookup
field_of key (fields fs) = lookup key fs
field_of key (raw e) = none

abbrev pub as_field : Option Uuid → Option Field
as_field none = none
as_field (some id) = some (uuid id)

-- An event that HandleDomainEvent sends on has, in the payload that the dispatcher gave it, the
-- identifier of its own customer under the key "customer_id", from which the outbox worker reads
-- whom to notify; an event of any other type has no field under that key.
pub forwarded_events_name_their_customer :
    (e : DomainEvent)
    → field_of "customer_id" (to_dto e)
      ≡ (if is_forwarded (event_name (event_type e)) then as_field (customer_of e) else none)
unfolding field_of to_dto is_forwarded event_name event_type
forwarded_events_name_their_customer (customer_was_created e) = refl
forwarded_events_name_their_customer (customer_was_updated e) = refl
forwarded_events_name_their_customer (product_was_created e) = refl
forwarded_events_name_their_customer (product_was_updated e) = refl
forwarded_events_name_their_customer (price_was_created e) = refl
forwarded_events_name_their_customer (price_was_updated e) = refl
forwarded_events_name_their_customer (subscription_was_created e) = refl
forwarded_events_name_their_customer (subscription_was_canceled e) = refl
forwarded_events_name_their_customer (subscription_was_renewed e) = refl
forwarded_events_name_their_customer (subscription_was_updated e) = refl
forwarded_events_name_their_customer (invoice_was_created e) = refl
forwarded_events_name_their_customer (invoice_was_paid e) = refl
forwarded_events_name_their_customer (invoice_payment_has_failed e) = refl
forwarded_events_name_their_customer (payment_intent_has_succeeded e) = refl
forwarded_events_name_their_customer (payment_intent_has_failed e) = refl
