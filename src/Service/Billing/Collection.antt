-- ===== src/Service/Billing/Collection.antt =====
-- How RenewSubscription of internal/service/billing.go collects the invoice of a renewal.
use billing_simulator.Base.{ℤ, ℕ, ◌≡◌, ◌≢◌, ◌<◌, ◌≤◌, List, some, Time, arith, if◌then◌else◌}
use billing_simulator.Entity.Errors.{Ensures, Ensures->>=, ◌>>=◌}
use billing_simulator.Entity.Status.{
  InvoiceStatus, active, past_due, canceled, unpaid, paid, open_, is_paid,
}
use billing_simulator.Entity.Events.{Uuid}
use billing_simulator.Entity.Aggregate.{Draw, raise_event}
use billing_simulator.Entity.Price.{Price}
use billing_simulator.Entity.Invoice.{Invoice}
use billing_simulator.Entity.Invoice.Balance.{IsBalanced}
use billing_simulator.Entity.Subscription.{Subscription, renew}
use billing_simulator.Entity.Subscription.Renewal.{renew_lem}
use billing_simulator.Service.Billing.{collect}

-- What the collection of a new invoice leaves: of a subscription by its identifier, and of an
-- invoice by its amount.
pub record Collected (status : InvoiceStatus) (id : Uuid) (amount : ℤ) (t : Subscription)
    (inv : Invoice) : Type 0 where
  pub same : t.id ≡ id
  pub charged : inv.amount ≡ amount
  pub balanced : IsBalanced inv
  pub subscription : t.status ≡ (if is_paid status then active else past_due)
  pub invoice : inv.status ≡ (if is_paid status then paid else open_)
  pub attempts : inv.attempt_count ≡ (if is_paid status then 0 else 1)

-- A renewed subscription with its new invoice, as the renewal leaves them.
abbrev pub Fresh : Uuid → ℤ → Subscription × Invoice → Type 0
Fresh id amount r =
    (r.0.id ≡ id)
    × (r.1.amount ≡ amount)
    × (r.1.status ≡ open_)
    × (r.1.attempt_count ≡ 0)
    × IsBalanced r.1

pub collect_lem :
    (status : InvoiceStatus) (id : Uuid) (amount : ℤ) (r : Subscription × Invoice) (now : Time)
    → Fresh id amount r
    → Ensures (collect raise_event status r.0 r.1 now) (λ t. Collected status id amount t.0 t.1)
unfolding collect raise_event
collect_lem status id amount r now (same, charged, o, a, b) = ground arith

pub renew-Fresh :
    (d : Draw) (bytes : List ℕ) (s : Subscription) (now : Time) (price : Price)
    → d.bytes ≡ some bytes
    → s.status ≢ canceled
    → s.status ≢ unpaid
    → s.current_period_start < s.current_period_end
    → s.current_period_end ≤ now
    → Ensures (renew raise_event d s now price) (Fresh s.id price.amount)
renew-Fresh d bytes s now price e c u p h =
    renew_lem d bytes s now price _ e c u p h λ start r a b l w. ground arith

-- With the Raise of DomainEvents, a renewal that is due, of a subscription that is neither canceled
-- nor unpaid, ends in one of two ways. When the payment succeeds, the subscription is active and
-- its invoice paid in full; otherwise the subscription is past due, and its invoice open, unpaid
-- and with one attempt. It never cancels the subscription: the attempt that it counts is always
-- the first of a new invoice.
pub renewal-Collected :
    (status : InvoiceStatus) (d : Draw) (bytes : List ℕ) (s : Subscription) (now : Time)
    (price : Price)
    → d.bytes ≡ some bytes
    → s.status ≢ canceled
    → s.status ≢ unpaid
    → s.current_period_start < s.current_period_end
    → s.current_period_end ≤ now
    → Ensures
        (renew raise_event d s now price >>= λ r. collect raise_event status r.0 r.1 now)
        (λ t. Collected status s.id price.amount t.0 t.1)
renewal-Collected status d bytes s now price e c u p h =
    Ensures->>= (Fresh s.id price.amount) _ _ _ (renew-Fresh d bytes s now price e c u p h)
      λ r w. collect_lem status s.id price.amount r now w
