-- ===== src/Service/Billing/Declined.antt =====
-- RenewSubscription of internal/service/billing.go and GetActiveForRenewal of
-- internal/repository/subscription.go: what becomes of a subscription whose payment is declined.
use billing_simulator.Base.{
  ℕ, ◌≡◌, ◌≢◌, ◌≤◌, ◌<◌, String, ◌==◌, List, All, All-mono, All-map, true, false, Option, none,
  some, arith, Time, keep, Bool-cases, inl, inr,
}
use billing_simulator.Entity.Errors.{returns, Ensures, Ensures-mono}
use billing_simulator.Entity.Status.{is_paid, canceled, unpaid, past_due}
use billing_simulator.Entity.Events.{Uuid}
use billing_simulator.Entity.Aggregate.{raise_event}
use billing_simulator.Entity.Price.{Price}
use billing_simulator.Entity.Invoice.{Invoice}
use billing_simulator.Entity.Subscription.{Subscription}
use billing_simulator.Repository.Table.{find_all, keep-All-also}
use billing_simulator.Repository.Subscriptions
use billing_simulator.Repository.Subscriptions.{
  is_due, is_renewable, scan_row, get_active_for_renewal,
}
use billing_simulator.Repository.Prices
use billing_simulator.Repository.Database.{Database}
use billing_simulator.Service.Call.{Meets, simulate_payment}
use billing_simulator.Service.EventDispatcher.{Dto}
use billing_simulator.Service.Billing.{renew_subscription_body}
use billing_simulator.Service.Billing.Renewals.{renew_subscription_body-Billed}

-- A row that is past due if it has an identifier is not due with that identifier.
not_selected :
    (id : Uuid) (now : Time) (row : Subscription)
    → ((row.id == id) ≡ true → row.status ≡ past_due)
    → is_due now row ≡ true
    → ((scan_row row).id == id) ≡ false
unfolding is_due is_renewable scan_row
not_selected id now row h due = elim (Bool-cases (row.id == id)) [
  | inr e ↦ e
  | inl e ↦ absurd (ground (arith, h e, due))
]

none_selected :
    (id : Uuid) (now : Time) (rows : List Subscription)
    → All (λ row. (row.id == id) ≡ true → row.status ≡ past_due) rows
    → Ensures (get_active_for_renewal now none rows) (All (λ t. (t.id == id) ≡ false))
unfolding get_active_for_renewal find_all
none_selected id now rows h = All-map _ scan_row (keep (is_due now) rows) (
    All-mono (keep (is_due now) rows)
      (keep-All-also (λ row. (row.id == id) ≡ true → row.status ≡ past_due) (is_due now) rows h)
      λ row k. not_selected id now row k.0 k.1)

-- With the Raise of DomainEvents, where no statement fails, a renewal that is due and whose payment
-- is declined returns, and the subscription is not among those that GetActiveForRenewal returns
-- after it, at whatever time: neither the worker nor an advance of the clock renews it again.
pub get_active_for_renewal-declined :
    (marshal : Dto → Option String) (m : Meets) (held : Option Invoice) (id : Uuid) (db : Database)
    (s : Subscription) (price : Price) (bytes : List ℕ) (later : Time)
    → ((k : ℕ) → m.fault k ≡ none)
    → Subscriptions.get_by_id id none db.subscriptions ≡ returns s
    → Prices.get_by_id s.price_id none db.prices ≡ returns price
    → (m.draw 0).bytes ≡ some bytes
    → s.status ≢ canceled
    → s.status ≢ unpaid
    → s.current_period_start < s.current_period_end
    → s.current_period_end ≤ m.clock 0
    → s.next_billing_at ≤ m.clock 0
    → is_paid (simulate_payment m) ≡ false
    → Ensures (renew_subscription_body raise_event marshal m held id db) (λ r.
      Ensures
        (get_active_for_renewal later none r.1.subscriptions)
        (All (λ t. (t.id == s.id) ≡ false)))
get_active_for_renewal-declined marshal m held id db s price bytes later quiet found priced drawn c
      u p h k declined =
    Ensures-mono _ _ (renew_subscription_body raise_event marshal m held id db)
      (renew_subscription_body-Billed marshal m held id db s price bytes quiet found priced drawn c
        u p h k)
      λ r b. none_selected s.id later r.1.subscriptions (
        All-mono r.1.subscriptions b.marked
          λ row w e. let status = w e in ground (arith, declined, status))
