-- ===== src/Service/Billing/Once.antt =====
-- RenewSubscription of internal/service/billing.go, when it is called again.
use billing_simulator.Base.{
  ℕ, ◌+◌, ◌-◌, ◌≡◌, ◌≢◌, ◌≤◌, ◌<◌, refl, String, ◌==◌, ◌++◌, find?, List, true, Option, none, some,
  ℤ, int64_half, arith, Time, Option-cases, inl, inr, lt→ltb,
}
use billing_simulator.Entity.Errors.{returns, Ensures, Ensures->>=, Ensures-mono}
use billing_simulator.Entity.Status.{InvoiceStatus, canceled, unpaid}
use billing_simulator.Entity.Events.{Uuid}
use billing_simulator.Entity.Aggregate.{Draw, raise_event}
use billing_simulator.Entity.Price.{Price, next_billing_date}
use billing_simulator.Entity.Invoice.{Invoice}
use billing_simulator.Entity.Subscription.{Subscription, renew}
use billing_simulator.Entity.Subscription.Renewal.{renew_lem}
use billing_simulator.Repository.Table.{
  update_where, find?-update_where, find_first, update_or, insert,
}
use billing_simulator.Repository.Subscriptions
use billing_simulator.Repository.Subscriptions.{set_columns, scan_row, has_id}
use billing_simulator.Repository.Prices
use billing_simulator.Repository.Invoices
use billing_simulator.Repository.Database.{Database}
use billing_simulator.Service.Call.{Meets, simulate_payment}
use billing_simulator.Service.EventDispatcher.{Dto, outbox_events}
use billing_simulator.Service.Billing.{collect, renew_subscription_body, renew_due}
use billing_simulator.Service.Billing.Collection.{Fresh}
use billing_simulator.Service.Billing.Renewals.{row_of, saved, not_after}

-- A subscription whose next billing date is still to come.
abbrev pub Ahead : Time → Subscription → Type 0
Ahead now t = now < t.next_billing_at

renew-Ahead :
    (d : Draw) (bytes : List ℕ) (s : Subscription) (now : Time) (price : Price)
    → d.bytes ≡ some bytes
    → s.status ≢ canceled
    → s.status ≢ unpaid
    → s.current_period_start < s.current_period_end
    → s.current_period_end ≤ now
    → now < s.current_period_end + int64_half
    → ((t : Time) → t + (s.current_period_end - s.current_period_start) ≤ next_billing_date price t)
    → Ensures (renew raise_event d s now price) (λ r. Fresh s.id price.amount r × Ahead now r.0)
renew-Ahead d bytes s now price e c u p h near long =
    renew_lem d bytes s now price _ e c u p h λ start r a b l w. ground (arith, l near, long start)

collect-Ahead :
    (status : InvoiceStatus) (id : Uuid) (amount : ℤ) (r : Subscription × Invoice) (now : Time)
    → Fresh id amount r
    → Ahead now r.0
    → Ensures (collect raise_event status r.0 r.1 now) (λ t. (t.0.id ≡ id) × Ahead now t.0)
unfolding collect raise_event
collect-Ahead status id amount r now (same, charged, o, a, b) ahead = ground arith

-- What a renewal does to the tables that it reads.
record Advanced (now : Time) (s : Subscription) (db db' : Database) : Type 0 where
  renewed : Subscription
  same : renewed.id ≡ s.id
  ahead : Ahead now renewed
  written :
      db'.subscriptions
      ≡ update_where (λ row. row.id == renewed.id) (set_columns renewed) db.subscriptions
  kept : db'.prices ≡ db.prices

module _ (marshal : Dto → Option String) (m : Meets) where
  body-Advanced :
      (held : Option Invoice) (id : Uuid) (db : Database) (s : Subscription) (price : Price)
      (bytes : List ℕ)
      → ((k : ℕ) → m.fault k ≡ none)
      → Subscriptions.get_by_id id none db.subscriptions ≡ returns s
      → Prices.get_by_id s.price_id none db.prices ≡ returns price
      → (m.draw 0).bytes ≡ some bytes
      → s.status ≢ canceled
      → s.status ≢ unpaid
      → s.current_period_start < s.current_period_end
      → s.current_period_end ≤ m.clock 0
      → m.clock 0 < s.current_period_end + int64_half
      → s.next_billing_at ≤ m.clock 0
      → ((t : Time)
          → t + (s.current_period_end - s.current_period_start) ≤ next_billing_date price t)
      → Ensures
          (renew_subscription_body raise_event marshal m held id db)
          (λ r. Advanced (m.clock 0) s db r.1)
  unfolding renew_subscription_body renew_due Subscriptions.update Invoices.create insert update_or
  body-Advanced held id db s price bytes quiet found priced drawn c u p h near k long =
      let now = m.clock 0 in
      rw
        (
          renew_subscription_body,
          renew_due,
          quiet 0,
          quiet 1,
          quiet 2,
          quiet 3,
          quiet 4,
          found,
          priced,
          not_after s.next_billing_at now k,
        )
        (Ensures->>= (λ r. Fresh s.id price.amount r × Ahead now r.0) _ _ _
          (renew-Ahead (m.draw 0) bytes s now price drawn c u p h near long)
          λ r w.
            Ensures->>= (λ t. (t.0.id ≡ s.id) × Ahead now t.0) _ _ _
              (collect-Ahead (simulate_payment m) s.id price.amount r now w.0 w.1)
              λ t a. rw (row_of marshal m id db s t.0 found a.0) (
                Ensures->>= (λ rows'. Unit {0}) _ _ _
                  (saved marshal m
                    (outbox_events marshal m 1 0 (t.0.root.domain_events ++ t.1.root.domain_events))
                    db.outbox)
                  λ outbox _. record {
                    renewed = t.0;
                    same = a.0;
                    ahead = a.1;
                    written = refl;
                    kept = refl;
                  }))

-- What GetByID returns is a row of the table, with the identifier.
found_row :
    (id : Uuid) (rows : List Subscription) (s : Subscription)
    → Subscriptions.get_by_id id none rows ≡ returns s
    → (x : Subscription) × (find? (has_id id) rows ≡ some x) × (scan_row x ≡ s)
unfolding Subscriptions.get_by_id find_first
found_row id rows s h = elim (Option-cases (find? (has_id id) rows)) [
  | inl e ↦ absurd (ground (arith, e, h))
  | inr (x, e) ↦ (x, e, ground (arith, e, h))
]

-- After the renewal, the subscription is found again, with its price and the new billing date.
found_again :
    (now : Time) (id : Uuid) (db db' : Database) (s : Subscription)
    → Subscriptions.get_by_id id none db.subscriptions ≡ returns s
    → Advanced now s db db'
    → (t : Subscription) × (Subscriptions.get_by_id id none db'.subscriptions ≡ returns t)
      × (t.price_id ≡ s.price_id)
      × Ahead now t
unfolding Subscriptions.get_by_id find_first set_columns scan_row
found_again now id db db' s h a =
    let row = found_row id db.subscriptions s h in
    let t = a.renewed in
    let set = set_columns t in
    let again =
      find?-update_where (has_id id) (λ y. y.id == t.id) set db.subscriptions row.0 row.1
        λ y. refl in
    let own : (row.0.id == t.id) ≡ true = ground (arith, row.2, a.same) in
    (
      scan_row (set row.0),
      rw (a.written, find_first, again, own) refl,
      ground (arith, row.2),
      a.ahead,
    )

-- A renewal of a subscription whose billing date is still to come does nothing.
not_due :
    (marshal : Dto → Option String) (m : Meets) (held : Option Invoice) (id : Uuid) (db : Database)
    (t : Subscription) (price : Price)
    → m.fault 0 ≡ none
    → m.fault 1 ≡ none
    → Subscriptions.get_by_id id none db.subscriptions ≡ returns t
    → Prices.get_by_id t.price_id none db.prices ≡ returns price
    → Ahead (m.clock 0) t
    → renew_subscription_body raise_event marshal m held id db ≡ returns (held, db)
unfolding renew_subscription_body
not_due marshal m held id db t price q r found priced ahead =
    rw (q, r, found, priced, lt→ltb (m.clock 0) t.next_billing_at ahead) refl

-- With the Raise of DomainEvents, where no statement fails, and where the interval of the price is
-- as long as the period that ends, which ended less than 2 ^ 63 nanoseconds ago: a renewal of a
-- subscription that is due returns, and a second
-- one, at the same reading of the clock, returns too, and leaves every table as it is. So a period
-- is billed once, however many workers renew the subscription one after the other.
pub renew_subscription_body-once :
    (marshal : Dto → Option String) (m m' : Meets) (held held' : Option Invoice) (id : Uuid)
    (db : Database) (s : Subscription) (price : Price) (bytes : List ℕ)
    → ((k : ℕ) → m.fault k ≡ none)
    → Subscriptions.get_by_id id none db.subscriptions ≡ returns s
    → Prices.get_by_id s.price_id none db.prices ≡ returns price
    → (m.draw 0).bytes ≡ some bytes
    → s.status ≢ canceled
    → s.status ≢ unpaid
    → s.current_period_start < s.current_period_end
    → s.current_period_end ≤ m.clock 0
    → m.clock 0 < s.current_period_end + int64_half
    → s.next_billing_at ≤ m.clock 0
    → ((t : Time) → t + (s.current_period_end - s.current_period_start) ≤ next_billing_date price t)
    → m'.fault 0 ≡ none
    → m'.fault 1 ≡ none
    → m'.clock 0 ≡ m.clock 0
    → Ensures
        (renew_subscription_body raise_event marshal m held id db)
        (λ r. renew_subscription_body raise_event marshal m' held' id r.1 ≡ returns (held', r.1))
renew_subscription_body-once marshal m m' held held' id db s price bytes quiet found priced drawn c
      u p h near k long q r same =
    Ensures-mono (λ r. Advanced (m.clock 0) s db r.1) _
      (renew_subscription_body raise_event marshal m held id db)
      (body-Advanced marshal m held id db s price bytes quiet found priced drawn c u p h near k
        long)
      λ result a.
        let again = found_again (m.clock 0) id db result.1 s found a in
        not_due marshal m' held' id result.1 again.0 price q r again.1 (rw (again.2, a.kept) priced)
          (rw same again.3)
