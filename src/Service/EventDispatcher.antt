-- ===== src/Service/EventDispatcher.antt =====
-- internal/service/event_dispatcher.go, and the structs of internal/service/dto.go with the keys
-- of their JSON. `json.Marshal` is a parameter.
pub mod Customers
pub mod Order
use billing_simulator.Base.{ℕ, suc, String, Bool, Option, none, some, List, [], ◌∷◌, ℤ, Time}
use billing_simulator.Entity.Errors.{Outcome, Error}
use billing_simulator.Entity.Status.{InvoiceStatus, SubscriptionStatus}
use billing_simulator.Entity.Events.{
  Uuid, DomainEvent, customer_was_created, invoice_was_created, invoice_was_paid,
  invoice_payment_has_failed, subscription_was_created, subscription_was_canceled,
  subscription_was_renewed,
}
use billing_simulator.Entity.Outbox.{OutboxEvent, new_outbox_event}
use billing_simulator.Repository.Outbox.{save_batch}
use billing_simulator.Service.Call.{Meets}

-- A field of a struct, as `json.Marshal` gets it; a nil pointer is omitted.
pub data Field : Type 0 where
  uuid : Uuid → Field
  text : String → Field
  number : ℤ → Field
  time : Time → Field
  flag : Bool → Field
  uuid_or_omitted : Option Uuid → Field
  text_or_omitted : Option String → Field
  invoice_status : InvoiceStatus → Field
  subscription_status : SubscriptionStatus → Field

-- What is marshalled: a struct of dto.go by its keys, or an event itself, whose struct names no
-- keys.
pub data Dto : Type 0 where
  fields : List (String × Field) → Dto
  raw : DomainEvent → Dto

-- `toDTO`
unfoldable pub to_dto : DomainEvent → Dto
to_dto (customer_was_created e) = fields (
    ("customer_id", uuid e.customer_id)
    ∷ ("customer_public_id", text e.customer_public_id)
    ∷ ("email", text e.email)
    ∷ ("name", text e.name)
    ∷ ("created_at", time e.at)
    ∷ [])
to_dto (invoice_was_created e) = fields (
    ("invoice_id", uuid e.invoice_id)
    ∷ ("invoice_public_id", text e.invoice_public_id)
    ∷ ("customer_id", uuid e.customer_id)
    ∷ ("customer_public_id", text e.customer_public_id)
    ∷ ("subscription_id", uuid_or_omitted e.subscription_id)
    ∷ ("subscription_public_id", text_or_omitted e.subscription_public_id)
    ∷ ("amount", number e.amount)
    ∷ ("currency", text e.currency)
    ∷ ("status", invoice_status e.status)
    ∷ ("created_at", time e.created_at)
    ∷ [])
to_dto (invoice_was_paid e) = fields (
    ("invoice_id", uuid e.invoice_id)
    ∷ ("invoice_public_id", text e.invoice_public_id)
    ∷ ("customer_id", uuid e.customer_id)
    ∷ ("customer_public_id", text e.customer_public_id)
    ∷ ("subscription_id", uuid_or_omitted e.subscription_id)
    ∷ ("amount", number e.amount)
    ∷ ("currency", text e.currency)
    ∷ ("paid_at", time e.paid_at)
    ∷ [])
to_dto (invoice_payment_has_failed e) = fields (
    ("invoice_id", uuid e.invoice_id)
    ∷ ("invoice_public_id", text e.invoice_public_id)
    ∷ ("customer_id", uuid e.customer_id)
    ∷ ("customer_public_id", text e.customer_public_id)
    ∷ ("subscription_id", uuid_or_omitted e.subscription_id)
    ∷ ("amount", number e.amount)
    ∷ ("currency", text e.currency)
    ∷ ("error_code", text e.error_code)
    ∷ ("failed_at", time e.failed_at)
    ∷ [])
to_dto (subscription_was_created e) = fields (
    ("subscription_id", uuid e.subscription_id)
    ∷ ("subscription_public_id", text e.subscription_public_id)
    ∷ ("customer_id", uuid e.customer_id)
    ∷ ("customer_public_id", text e.customer_public_id)
    ∷ ("price_id", uuid e.price_id)
    ∷ ("price_public_id", text e.price_public_id)
    ∷ ("status", subscription_status e.status)
    ∷ ("current_period_end", time e.current_period_end)
    ∷ ("next_billing_at", time e.next_billing_at)
    ∷ ("created_at", time e.created_at)
    ∷ [])
to_dto (subscription_was_canceled e) = fields (
    ("subscription_id", uuid e.subscription_id)
    ∷ ("subscription_public_id", text e.subscription_public_id)
    ∷ ("customer_id", uuid e.customer_id)
    ∷ ("customer_public_id", text e.customer_public_id)
    ∷ ("status", subscription_status e.status)
    ∷ ("canceled_at", time e.canceled_at)
    ∷ ("at_period_end", flag e.at_period_end)
    ∷ [])
to_dto (subscription_was_renewed e) = fields (
    ("subscription_id", uuid e.subscription_id)
    ∷ ("subscription_public_id", text e.subscription_public_id)
    ∷ ("customer_id", uuid e.customer_id)
    ∷ ("customer_public_id", text e.customer_public_id)
    ∷ ("invoice_id", uuid e.invoice_id)
    ∷ ("invoice_public_id", text e.invoice_public_id)
    ∷ ("invoice_amount", number e.invoice_amount)
    ∷ ("invoice_currency", text e.invoice_currency)
    ∷ ("invoice_status", invoice_status e.invoice_status)
    ∷ ("new_period_end", time e.new_period_end)
    ∷ ("renewed_at", time e.renewed_at)
    ∷ [])
to_dto event = raw event

module _ (marshal : Dto → Option String) where
  -- The loop of `Dispatch`; an event that cannot be marshalled is left out. The clock is read for
  -- each event that is kept, from its reading number `reading` on.
  unfoldable pub outbox_events : Meets → ℕ → ℕ → List DomainEvent → List OutboxEvent
  unfolding to_dto new_outbox_event
  outbox_events m reading n [] = []
  outbox_events m reading n (event ∷ events) = elim (marshal (to_dto event)) [
    | none ↦ outbox_events m reading n events
    | some payload ↦
        new_outbox_event (m.event_id n) event (m.clock reading) payload
        ∷ outbox_events m (suc reading) (suc n) events
  ]

  -- `Dispatch`
  unfoldable pub dispatch :
      Meets → ℕ → List DomainEvent → Option Error → List OutboxEvent → Outcome (List OutboxEvent)
  unfolding outbox_events save_batch
  dispatch m reading events fault rows = save_batch (outbox_events m reading 0 events) fault rows
