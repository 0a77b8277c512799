-- ===== src/Service/Billing/Creation.antt =====
-- What CreateSubscription of internal/service/billing.go writes.
use mathlib.Core.List.{map-append}
use billing_simulator.Base.{
  ℕ, ◌≡◌, ◌∙◌, ap, refl, String, true, Option, none, some, is_some, List, [], ◌∷◌, ◌++◌, map, ℤ,
  pos, Time,
}
use billing_simulator.Entity.Errors.{returns, Ensures, Ensures->>=}
use billing_simulator.Entity.Status.{paid, open_, active, event_name}
use billing_simulator.Entity.Events.{Uuid, event_type, aggregate_id}
use billing_simulator.Entity.Aggregate.{Draw, raise_event, generate_public_id}
use billing_simulator.Entity.Customer.{Customer}
use billing_simulator.Entity.Price.{Price, next_billing_date}
use billing_simulator.Entity.Invoice.{Invoice, new_invoice, mark_paid, can_be_paid, raise_created}
use billing_simulator.Entity.Subscription.{Subscription, new_subscription}
use billing_simulator.Repository.Table.{insert}
use billing_simulator.Repository.Customers
use billing_simulator.Repository.Prices
use billing_simulator.Repository.Subscriptions
use billing_simulator.Repository.Invoices
use billing_simulator.Repository.Database.{Database}
use billing_simulator.Service.Call.{Meets}
use billing_simulator.Service.EventDispatcher.{Dto, dispatch}
use billing_simulator.Service.EventDispatcher.Order.{label, entry_label, dispatch-appends}
use billing_simulator.Service.Billing.{create_subscription_body}

-- What a new subscription leaves in the tables: one subscription, one invoice, and three events.
pub record Created (customer price_id : Uuid) (amount : ℤ) (now until : Time) (db db' : Database)
    : Type 0 where
  pub subscription : Subscription
  pub bill : Invoice
  pub enrolled : db'.subscriptions ≡ db.subscriptions ++ subscription ∷ []
  pub billed : db'.invoices ≡ db.invoices ++ bill ∷ []
  pub begun : subscription.status ≡ active
  pub of_customer : (subscription.customer_id ≡ customer) × (subscription.price_id ≡ price_id)
  pub period :
      (subscription.current_period_start ≡ now)
      × (subscription.current_period_end ≡ until)
      × (subscription.next_billing_at ≡ until)
  pub settled :
      (bill.status ≡ paid)
      × (bill.amount ≡ amount)
      × (bill.amount_paid ≡ amount)
      × (bill.amount_remaining ≡ pos 0)
  pub linked : (bill.subscription_id ≡ some subscription.id) × (bill.customer_id ≡ customer)
  pub told :
      map entry_label db'.outbox
      ≡ map entry_label db.outbox
        ++ ("subscription.created", subscription.id)
          ∷ ("invoice.created", bill.id)
          ∷ ("invoice.paid", bill.id)
          ∷ []

-- A subscription as its constructor leaves it.
record Begun (customer price_id : Uuid) (now until : Time) (s : Subscription) : Type 0 where
  begun : s.status ≡ active
  of_customer : (s.customer_id ≡ customer) × (s.price_id ≡ price_id)
  period :
      (s.current_period_start ≡ now) × (s.current_period_end ≡ until) × (s.next_billing_at ≡ until)
  raised : map label s.root.domain_events ≡ ("subscription.created", s.id) ∷ []

new_subscription-Begun :
    (d : Draw) (bytes : List ℕ) (customer price_id : Uuid) (customer_public price_public : String)
    (now until : Time)
    → d.bytes ≡ some bytes
    → Ensures
        (new_subscription raise_event d customer price_id customer_public price_public now until
          now)
        (Begun customer price_id now until)
unfolding new_subscription generate_public_id raise_event event_name event_type aggregate_id
new_subscription-Begun d bytes customer price_id customer_public price_public now until drawn =
    rw (new_subscription, generate_public_id, drawn)
      (record {
        begun = refl;
        of_customer = (refl, refl);
        period = (refl, refl, refl);
        raised = refl;
      })

-- An invoice as its constructor leaves it.
record Owed (customer : Uuid) (subscription : Option Uuid) (amount : ℤ) (inv : Invoice)
    : Type 0 where
  opened : inv.status ≡ open_
  charged : inv.amount ≡ amount
  linked : (inv.subscription_id ≡ subscription) × (inv.customer_id ≡ customer)
  raised : map label inv.root.domain_events ≡ ("invoice.created", inv.id) ∷ []

new_invoice-Owed :
    (d : Draw) (bytes : List ℕ) (customer : Uuid) (public : String) (sub : Option Uuid)
    (sub_public : Option String) (amount : ℤ) (currency : String) (now : Time)
    → d.bytes ≡ some bytes
    → Ensures
        (new_invoice raise_event d customer public sub sub_public amount currency now)
        (Owed customer sub amount)
unfolding new_invoice generate_public_id raise_created raise_event event_name event_type
    aggregate_id
new_invoice-Owed d bytes customer public sub sub_public amount currency now drawn =
    rw (new_invoice, generate_public_id, drawn)
      (record { opened = refl; charged = refl; linked = (refl, refl); raised = refl })

-- The invoice when it has been paid.
record Settled (customer : Uuid) (subscription : Option Uuid) (amount : ℤ) (inv : Invoice)
    : Type 0 where
  settled :
      (inv.status ≡ paid)
      × (inv.amount ≡ amount)
      × (inv.amount_paid ≡ amount)
      × (inv.amount_remaining ≡ pos 0)
  linked : (inv.subscription_id ≡ subscription) × (inv.customer_id ≡ customer)
  raised :
      map label inv.root.domain_events ≡ ("invoice.created", inv.id) ∷ ("invoice.paid", inv.id) ∷ []

mark_paid-Settled :
    (customer : Uuid) (subscription : Option Uuid) (amount : ℤ) (inv : Invoice) (now : Time)
    → Owed customer subscription amount inv
    → Ensures (mark_paid raise_event inv now) (Settled customer subscription amount)
unfolding mark_paid can_be_paid raise_event event_name event_type aggregate_id
mark_paid-Settled customer subscription amount inv now o =
    rw (mark_paid, o.opened)
      (record {
        settled = (refl, o.charged, o.charged, refl);
        linked = o.linked;
        raised =
            map-append label inv.root.domain_events _
            ∙ ap (λ ls. ls ++ ("invoice.paid", inv.id) ∷ []) o.raised;
      })

-- With the Raise of DomainEvents, where every event can be marshalled, no statement fails, and the
-- two public identifiers can be drawn: CreateSubscription, for a customer and a price that are
-- found, returns. It adds one active subscription to the price, whose period begins now and ends at
-- the price's next billing date, which is its own; one invoice of it, over the price's amount, paid
-- in full; and three events to the outbox, which tell of the subscription, the invoice, and its
-- payment, in this order.
pub create_subscription_body-Created :
    (marshal : Dto → Option String) (m : Meets) (customer_id price_id : Uuid) (db : Database)
    (customer : Customer) (price : Price) (bytes bytes' : List ℕ)
    → ((dto : Dto) → is_some (marshal dto) ≡ true)
    → ((k : ℕ) → m.fault k ≡ none)
    → Customers.get_by_id customer_id none db.customers ≡ returns customer
    → Prices.get_by_id price_id none db.prices ≡ returns price
    → (m.draw 0).bytes ≡ some bytes
    → (m.draw 1).bytes ≡ some bytes'
    → Ensures (create_subscription_body raise_event marshal m customer_id price_id db) (λ r.
      Created customer_id price.id price.amount
        (m.clock 0)
        (next_billing_date price (m.clock 0))
        db
        r.1)
unfolding create_subscription_body Subscriptions.create Subscriptions.scan_row Invoices.create
    Invoices.scan_row insert dispatch
create_subscription_body-Created marshal m customer_id price_id db customer price bytes bytes' total
      quiet found priced drawn drawn' =
    let now = m.clock 0 in
    let until = next_billing_date price now in
    rw (create_subscription_body, quiet 0, quiet 1, quiet 2, quiet 3, quiet 4, found, priced)
      (Ensures->>= (Begun customer_id price.id now until) _ _ _
        (new_subscription-Begun (m.draw 0) bytes customer_id price.id customer.public_id
          price.public_id now until drawn)
        λ s b.
          Ensures->>= (Owed customer_id (some s.id) price.amount) _ _ _
            (new_invoice-Owed (m.draw 1) bytes' customer_id customer.public_id (some s.id)
              (some s.public_id) price.amount price.currency now drawn')
            λ inv o.
              Ensures->>= (Settled customer_id (some s.id) price.amount) _ _ _
                (mark_paid-Settled customer_id (some s.id) price.amount inv now o)
                λ bill p.
                  let events = s.root.domain_events ++ bill.root.domain_events in
                  Ensures->>=
                    (λ rows. map entry_label rows ≡ map entry_label db.outbox ++ map label events) _
                    _ _ (dispatch-appends marshal m total 1 events db.outbox)
                    λ outbox told. record {
                      subscription = Subscriptions.scan_row s;
                      bill = Invoices.scan_row bill;
                      enrolled = refl;
                      billed = refl;
                      begun = b.begun;
                      of_customer = b.of_customer;
                      period = b.period;
                      settled = p.settled;
                      linked = p.linked;
                      told =
                          told
                          ∙ ap (λ ls. map entry_label db.outbox ++ ls)
                              (map-append label s.root.domain_events bill.root.domain_events
                                ∙ rw (b.raised, p.raised) refl);
                    })
