-- ===== src/Examples/Entities.antt =====
-- The theorems on internal/entity at concrete entities.
use billing_simulator.Base.{
  add_64, sub_64, ◌+◌, ◌*◌, ◌≤◌, ◌<◌, ◌≡◌, ◌⊎◌, ◌↔◌, refl, true, false, none, [], ◌∷◌, pos,
  pos_part, day, arith, add_date, month_start, month_of, year_of_cycle, year_start, second,
}
use billing_simulator.Entity.Errors.{Outcome, returns, overflows, Ensures}
use billing_simulator.Entity.Status
use billing_simulator.Entity.Status.{
  paid, open_, uncollectible, void, canceled, unpaid, active, past_due, succeeded, cancel_immediate,
  cancel_at_period_end, subscription_updated, subscription_canceled,
}
use billing_simulator.Entity.Aggregate.{raise_root, raise_event, generate_public_id}
use billing_simulator.Entity.Customer.{new_customer}
use billing_simulator.Entity.Product.{new_product}
use billing_simulator.Entity.Price.{new_price}
use billing_simulator.Entity.Invoice.{Invoice, new_invoice, mark_paid, mark_payment_failed}
use billing_simulator.Entity.Invoice.Balance.{IsBalanced}
use billing_simulator.Entity.PaymentIntent.{PaymentIntent, capture}
use billing_simulator.Entity.PaymentIntent.Capture.{Captured, capture-adds, capture_bounds}
use billing_simulator.Entity.Subscription.{Subscription, new_subscription, cancel, renew}
use billing_simulator.Entity.Subscription.Renewal.{renew-catches_up}
use billing_simulator.Entity.Overflow.{constructors-overflow}
use billing_simulator.Entity.WebhookEndpoint.{should_receive_event}
use billing_simulator.Entity.WebhookEndpoint.Patterns.{AnyMatches, should_receive_event_iff}
use billing_simulator.Examples.Data.{
  draw, invoice, paid_invoice, intent, price, subscription, endpoint,
}

-- A month after 31 January 2024 is 2 March, and a year after 1 January 2024 is 1 January 2025.
month_test : add_date (1706659200 * second) (pos 0) (pos 1) (pos 0) ≡ 1709337600 * second
unfolding add_date month_start month_of year_of_cycle year_start
month_test = refl

year_test : add_date (1704067200 * second) (pos 1) (pos 0) (pos 0) ≡ 1735689600 * second
unfolding add_date month_start month_of year_of_cycle year_start
year_test = refl

public_id_test : generate_public_id "inv" draw ≡ returns "inv_0102030405060708"
unfolding generate_public_id
public_id_test = refl

owes_all : IsBalanced invoice
owes_all = record { settled = λ e. cc; owed = λ e. (refl, refl) }

paid_in_full : IsBalanced paid_invoice
paid_in_full = record { settled = λ e. (refl, refl); owed = λ e. absurd (e refl) }

-- The value of a call that returns; otherwise the one given.
abbrev value_of : {A : Type 0} → A → Outcome A → A
value_of a (returns b) = b
value_of a _ = a

abbrev made : Invoice
unfolding new_invoice
made = value_of invoice (new_invoice raise_event draw 1 "cus_1" none none (pos 500) "usd" 100)

abbrev settled : Invoice
unfolding mark_paid
settled = value_of invoice (mark_paid raise_event invoice 200)

abbrev declined : Invoice
unfolding mark_payment_failed
declined = value_of invoice (mark_payment_failed raise_event invoice 200 "card_declined" false)

abbrev captured : PaymentIntent
unfolding capture
captured = value_of intent (capture intent (pos 400) 200)

abbrev ended : Subscription
unfolding cancel
ended = value_of subscription (cancel raise_event subscription cancel_immediate 200)

abbrev ending : Subscription
unfolding cancel
ending = value_of subscription (cancel raise_event subscription cancel_at_period_end 200)

partly-Captured : Captured intent 500 100
partly-Captured = record { total = refl; so_far = refl; within = omega arith; fits = omega arith }

capture-adds_example : Ensures (capture intent (pos 400) 200) (λ q.
    Captured q 500 500
    × ((100 + 400 ≡ 500) × (q.status ≡ succeeded) ⊎ (100 + 400 < 500) × (q.status ≡ intent.status)))
capture-adds_example =
    capture-adds intent 500 100 400 200 partly-Captured refl (omega arith) (omega arith)

capture_bounds_example :
    Captured captured 500 (pos_part captured.amount_captured)
    × (100 < pos_part captured.amount_captured)
unfolding capture raise_event add_64 sub_64
capture_bounds_example = capture_bounds intent captured 500 100 (pos 400) 200 partly-Captured refl

renew-catches_up_example : Ensures (renew raise_event draw subscription (195 * day) price) (λ r.
    (r.0.current_period_start ≤ 195 * day)
    × (195 * day < r.0.current_period_end)
    × (r.0.next_billing_at ≡ r.0.current_period_end))
renew-catches_up_example =
    renew-catches_up draw _ subscription (195 * day) price 29 refl (λ e. cc) (λ e. cc) refl refl
      (omega arith) (omega arith) (omega arith)

constructors-overflow_example :
    (new_customer (raise_root 1000) draw "a@b.c" "Ann" 100 ≡ overflows)
    × (new_product (raise_root 1000) draw "Ann" "a@b.c" 100 ≡ overflows)
    × (new_price (raise_root 1000) draw 1 (pos 5) "a@b.c" Status.month (pos 5) 100 ≡ overflows)
    × (new_invoice (raise_root 1000) draw 1 "Ann" none none (pos 5) "a@b.c" 100 ≡ overflows)
    × (new_subscription (raise_root 1000) draw 1 1 "Ann" "a@b.c" 100 200 100 ≡ overflows)
constructors-overflow_example =
    constructors-overflow 1000 draw _ refl 1 "Ann" "a@b.c" (pos 5) Status.month none none 100 200
      100

should_receive_event_iff_example :
    (should_receive_event endpoint (b'a' ∷ b'.' ∷ b'b' ∷ []) ≡ true)
    ↔ AnyMatches (b'a' ∷ b'.' ∷ b'b' ∷ []) endpoint.enabled_events
should_receive_event_iff_example = should_receive_event_iff endpoint (b'a' ∷ b'.' ∷ b'b' ∷ [])
