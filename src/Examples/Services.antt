-- ===== src/Examples/Services.antt =====
-- The theorems on the transactions, the services and the outbox at concrete tables.
use billing_simulator.Base.{
  ℕ, ◌+◌, ◌*◌, ◌^◌, ◌≡◌, refl, ◌==◌, ◌&&◌, not, leb, String, true, false, some, none, [], ◌∷◌, All,
  pos, day, second, arith, if◌then◌else◌,
}
use billing_simulator.Entity.Errors.{
  panics, Outcome, returns, fails, Ensures, ◌>>=◌, invoice_already_paid, invoice_not_found,
}
use billing_simulator.Entity.Status.{
  paid, open_, uncollectible, succeeded, requires_payment_method, is_paid, cancel_immediate,
}
use billing_simulator.Entity.Events.{DomainEvent, payment_intent_has_failed}
use billing_simulator.Entity.Aggregate.{raise_event}
use billing_simulator.Entity.Invoice.{can_be_paid}
use billing_simulator.Entity.Subscription.{Subscription, cancel, renew}
use billing_simulator.Entity.Outbox.{OutboxEvent}
use billing_simulator.Repository.Invoices
use billing_simulator.Repository.Subscriptions
use billing_simulator.Repository.Outbox
use billing_simulator.Repository.Outbox.{is_unprocessed}
use billing_simulator.Repository.Outbox.Retries.{marked_events_wait}
use billing_simulator.Platform.Transaction.{default_config, execute_in_transaction}
use billing_simulator.Platform.Transaction.Attempts.{Atomic, execute_in_transaction-Atomic}
use billing_simulator.Service.Call.{simulate_payment}
use billing_simulator.Service.Billing.{collect, cancel_subscription_body, renew_subscription_body}
use billing_simulator.Service.Billing.Collection.{Collected, renewal-Collected}
use billing_simulator.Repository.Prices
use billing_simulator.Service.Billing.Renewals.{Billed, renew_subscription_body-Billed}
use billing_simulator.Service.Billing.Records.{Recorded, cancel_subscription_body-records}
use billing_simulator.Service.Payment.{settle_payment}
use billing_simulator.Service.Payment.Outcomes.{settle_payment-agrees, settle_payment-reopens}
use billing_simulator.Examples.Data.{
  draw, invoice, paid_invoice, intent, price, subscription, database, meets, marshal, calm,
  deadlock_once,
}

abbrev missing_invoice : ℕ → ℕ → Outcome (String × ℕ)
missing_invoice i n = fails invoice_not_found

execute_in_transaction-Atomic_example :
    Atomic default_config calm deadlock_once 5
      (execute_in_transaction default_config calm deadlock_once 5)
execute_in_transaction-Atomic_example =
    execute_in_transaction-Atomic default_config calm deadlock_once 5

renewal-Collected_example :
    Ensures
      (renew raise_event draw subscription (135 * day) price >>= λ r.
        collect raise_event open_ r.0 r.1 (135 * day))
      (λ t. Collected open_ 10 (pos 500) t.0 t.1)
renewal-Collected_example =
    renewal-Collected open_ draw _ subscription (135 * day) price refl (λ e. cc) (λ e. cc)
      (omega arith) (omega arith)

cancel_subscription_body-records_example :
    Ensures
      (cancel_subscription_body raise_event marshal (meets true) "sub_10" false database)
      (λ r. Recorded marshal (meets true) false subscription database r.1)
unfolding Subscriptions.get_by_public_id
cancel_subscription_body-records_example =
    cancel_subscription_body-records marshal (meets true) "sub_10" false database subscription
      (λ dto. refl) (λ k. refl) refl (λ e. cc)

abbrev ended : Subscription
unfolding cancel
ended = elim (cancel raise_event subscription cancel_immediate 200) [
  | returns t ↦ t
  | _ ↦ subscription
]

settle_payment-agrees_example :
    Ensures (settle_payment raise_event (meets false) intent database) (λ r.
      if is_paid (simulate_payment (meets false))
      then (r.0.status ≡ succeeded)
        × (r.0.amount_captured ≡ pos 500)
        × (r.1.status ≡ paid)
        × (r.1.amount_paid ≡ pos 500)
        × (r.1.amount_remaining ≡ pos 0)
      else (r.0.status ≡ requires_payment_method)
        × (r.1.attempt_count ≡ 0 + 1)
        × (r.1.status ≡ (if leb 3 (0 + 1) then uncollectible else open_)))
unfolding Invoices.get_by_id can_be_paid
settle_payment-agrees_example =
    settle_payment-agrees (meets false) intent database 20 invoice refl refl refl

settle_payment-reopens_example :
    (is_paid (simulate_payment (meets false)) ≡ true
      → settle_payment raise_event
          (meets false)
          intent
          (record database { invoices = paid_invoice ∷ [] })
        ≡ fails invoice_already_paid)
    × (is_paid (simulate_payment (meets false)) ≡ false
        → Ensures
            (settle_payment raise_event
              (meets false)
              intent
              (record database { invoices = paid_invoice ∷ [] }))
            (λ r.
              (r.0.status ≡ requires_payment_method)
              × (r.1.status
                  ≡ (if leb 3 (paid_invoice.attempt_count + 1) then uncollectible else open_))
              × (r.1.attempt_count ≡ paid_invoice.attempt_count + 1)
              × (r.1.amount_paid ≡ pos 500)))
unfolding Invoices.get_by_id can_be_paid
settle_payment-reopens_example =
    settle_payment-reopens (meets false) intent (record database { invoices = paid_invoice ∷ [] })
      20 paid_invoice refl refl refl

abbrev declined_event : DomainEvent
declined_event = payment_intent_has_failed (record {
  payment_intent_id = 30;
  payment_intent_public_id = "pi_30";
  customer_id = 1;
  invoice_id = some 20;
  amount = pos 500;
  currency = "usd";
  error_code = "card_declined";
  decline_code = "insufficient_funds";
  failed_at = 100;
})

abbrev entry : OutboxEvent
entry = record {
  id = 60;
  event_type = "invoice.paid";
  aggregate_id = 20;
  aggregate_type = "invoice";
  payload = "{}";
  occurred_at = 100;
  processed = false;
  processed_at = none;
  attempt = 0;
  next_attempt_at = none;
  error = none;
  created_at = 100;
}

marked_events_wait_example :
    (Outbox.mark_failed none 60 "no answer" 3 none (entry ∷ []) ≡ panics)
    × (Outbox.get_unprocessed none 10 none (entry ∷ []) ≡ panics)
    × Ensures (Outbox.mark_processed 60 100 none (entry ∷ [])) (λ marked.
      Ensures (Outbox.get_unprocessed (some 900) 10 none marked) (All (λ e. (e.id == 60) ≡ false)))
    × Ensures (Outbox.mark_failed (some 100) 60 "no answer" 3 none (entry ∷ [])) (λ marked.
      All
        (λ e.
          (e.id == 60) ≡ true
          → is_unprocessed 900 e ≡ (not e.processed && (leb 3 5 && leb (100 + 2 ^ 3 * second) 900)))
        marked
      × Ensures
          (Outbox.get_unprocessed (some 900) 10 none marked)
          (All (λ e. (e.id == 60) ≡ true → (leb 3 5 && leb (100 + 2 ^ 3 * second) 900) ≡ true)))
marked_events_wait_example = marked_events_wait 60 "no answer" 3 10 100 900 (entry ∷ []) refl

renew_subscription_body-Billed_example :
    Ensures
      (renew_subscription_body raise_event marshal (meets false) none 10 database)
      (λ r. Billed open_ subscription (pos 500) database r.1)
unfolding Subscriptions.get_by_id Prices.get_by_id simulate_payment
renew_subscription_body-Billed_example =
    renew_subscription_body-Billed marshal (meets false) none 10 database subscription price _
      (λ k. refl) refl refl refl (λ e. cc) (λ e. cc) (omega arith) (omega arith) (omega arith)
