-- ===== src/Service/Billing/Records.antt =====
-- What CancelSubscription of internal/service/billing.go writes, and when its operations write
-- nothing.
use billing_simulator.Base.{
  map, Time, ℕ, ◌≡◌, ◌≢◌, refl, ◌==◌, ==_iff, List, [], ◌∷◌, ◌++◌, All, any, String, Bool, true,
  false, Option, none, some, is_some, arith, if◌then◌else◌, Option-cases, inl, inr,
}
use billing_simulator.Entity.Errors.{returns, Ensures, Ensures->>=, Error, subscription_not_found}
use billing_simulator.Entity.Status.{canceled, event_name, cancel_immediate, cancel_at_period_end}
use billing_simulator.Entity.Events.{
  subscription_was_updated, subscription_was_canceled, Uuid, DomainEvent, event_type, aggregate_id,
}
use billing_simulator.Entity.Aggregate.{Raise, no_events, raise_event}
use billing_simulator.Entity.Invoice.{Invoice}
use billing_simulator.Entity.Subscription.{Subscription, cancel}
use billing_simulator.Entity.Outbox.{OutboxEvent, new_outbox_event}
use billing_simulator.Repository.Table.{
  update_where, update_where-updated, find_first-scanned, find_first-any,
}
use billing_simulator.Repository.Subscriptions
use billing_simulator.Repository.Subscriptions.{set_columns}
use billing_simulator.Repository.Database.{Database}
use billing_simulator.Platform.Transaction.{Config, Weather}
use billing_simulator.Platform.Transaction.Attempts.{Atomic, execute_in_transaction-Atomic}
use billing_simulator.Service.Call.{Meets}
use billing_simulator.Service.EventDispatcher.{text, Dto, dispatch, to_dto}
use billing_simulator.Service.EventDispatcher.Customers.{field_of}
use billing_simulator.Service.Billing.{
  cancel_subscription_body, renew_subscription_body, renew_subscription,
}

module _ (marshal : Dto → Option String) (m : Meets) where
  -- A subscription that is found has just been loaded: it has raised no event, and an UPDATE by
  -- its identifier finds its row.
  loaded :
      (id : String) (rows : List Subscription) (s : Subscription) (fault : Option Error)
      → Subscriptions.get_by_public_id id fault rows ≡ returns s
      → (s.root ≡ no_events) × (any (λ row. row.id == s.id) rows ≡ true)
  unfolding Subscriptions.get_by_public_id Subscriptions.scan_row
  loaded id rows s fault h = (
    find_first-scanned (λ x. x.root ≡ no_events) subscription_not_found _ Subscriptions.scan_row
        fault rows s h (λ x. refl),
    find_first-any subscription_not_found _ Subscriptions.scan_row fault rows s
        (λ y row. row.id == y.id) h λ x. (==_iff x.id x.id).1 refl,
  )

  -- The event of a cancellation
  abbrev event_of : Bool → Subscription → Time → DomainEvent
  event_of true s now = subscription_was_updated (record {
    subscription_id = s.id;
    subscription_public_id = s.public_id;
    customer_id = s.customer_id;
    customer_public_id = s.customer_public_id;
    status = s.status;
    cancel_at_period_end = true;
    updated_at = now;
  })
  event_of false s now = subscription_was_canceled (record {
    subscription_id = s.id;
    subscription_public_id = s.public_id;
    customer_id = s.customer_id;
    customer_public_id = s.customer_public_id;
    status = canceled;
    canceled_at = now;
    at_period_end = false;
  })

  -- What a cancellation leaves of a subscription that has raised no event.
  Canceled : Bool → Subscription → Time → Subscription → Type 0
  Canceled at_end s now t =
      (t.id ≡ s.id)
      × (t.status ≡ (if at_end then s.status else canceled))
      × (t.at_period_end ≡ at_end)
      × (t.root.domain_events ≡ event_of at_end s now ∷ [])

  canceled_lem :
      (at_end : Bool) (s : Subscription) (now : Time)
      → s.root ≡ no_events
      → s.status ≢ canceled
      → Ensures
          (cancel raise_event s (if at_end then cancel_at_period_end else cancel_immediate) now)
          (Canceled at_end s now)
  unfolding cancel raise_event Canceled
  canceled_lem true s now r u = ground arith
  canceled_lem false s now r u = ground arith

  -- The one event that the outbox gets.
  record Stored (event : DomainEvent) (rows rows' : List OutboxEvent) : Type 0 where
    entry : OutboxEvent
    appended : rows' ≡ rows ++ entry ∷ []
    named : entry.event_type ≡ event_name (event_type event)
    about : entry.aggregate_id ≡ aggregate_id event
    waits : entry.processed ≡ false

  dispatch-eq :
      (event : DomainEvent) (rows : List OutboxEvent) (payload : String)
      → marshal (to_dto event) ≡ some payload
      → dispatch marshal m 1 (event ∷ []) none rows
        ≡ returns (rows ++ new_outbox_event (m.event_id 0) event (m.clock 1) payload ∷ [])
  unfolding dispatch
  dispatch-eq event rows payload e = ground (arith, e)

  dispatch-one :
      (event : DomainEvent) (rows : List OutboxEvent)
      → is_some (marshal (to_dto event)) ≡ true
      → Ensures (dispatch marshal m 1 (event ∷ []) none rows) (Stored event rows)
  unfolding new_outbox_event
  dispatch-one event rows h = elim (Option-cases (marshal (to_dto event))) [
    | inl e ↦ absurd (ground (arith, e))
    | inr (payload, e) ↦ rw (dispatch-eq event rows payload e) (record {
      entry = new_outbox_event (m.event_id 0) event (m.clock 1) payload;
      appended = refl;
      named = refl;
      about = refl;
      waits = refl;
    })
  ]

  marked_rows :
      (at_end : Bool) (s t : Subscription)
      → t.id ≡ s.id
      → t.status ≡ (if at_end then s.status else canceled)
      → t.at_period_end ≡ at_end
      → (rows : List Subscription)
      → All
          (λ row.
            (row.id == s.id) ≡ true
            → (row.status ≡ (if at_end then s.status else canceled)) × (row.at_period_end ≡ at_end))
          (update_where (λ row. row.id == t.id) (set_columns t) rows)
  unfolding set_columns
  marked_rows at_end s t same status mark rows =
      rw⁻¹ same (
        update_where-updated _ (λ row. row.id == t.id) (set_columns t) rows λ row e. (status, mark))

  -- What a cancellation leaves in the tables: the row of the subscription has the new status and
  -- mark, the outbox has its one event, and the invoices are as they were.
  pub record Recorded (at_end : Bool) (s : Subscription) (db db' : Database) : Type 0 where
    stored : Stored (event_of at_end s (m.clock 0)) db.outbox db'.outbox
    marked :
        All
          (λ row.
            (row.id == s.id) ≡ true
            → (row.status ≡ (if at_end then s.status else canceled)) × (row.at_period_end ≡ at_end))
          db'.subscriptions
    untouched : db'.invoices ≡ db.invoices

  -- With the Raise of DomainEvents, where every event can be marshalled and no statement fails, a
  -- cancellation of a subscription that is found and is not canceled returns. It leaves the rows
  -- of the subscription canceled, or marked to end with the period and of the status that they
  -- had; the outbox has exactly one more event, which names the change and the subscription and
  -- waits to be published; the invoices are as they were.
  pub cancel_subscription_body-records :
      (id : String) (at_end : Bool) (db : Database) (s : Subscription)
      → ((dto : Dto) → is_some (marshal dto) ≡ true)
      → ((k : ℕ) → m.fault k ≡ none)
      → Subscriptions.get_by_public_id id none db.subscriptions ≡ returns s
      → s.status ≢ canceled
      → Ensures
          (cancel_subscription_body raise_event marshal m id at_end db)
          (λ r. Recorded at_end s db r.1)
  unfolding cancel_subscription_body Canceled
  cancel_subscription_body-records id at_end db s total quiet found u =
      let fresh = loaded id db.subscriptions s none found in
      rw (cancel_subscription_body, quiet 0, quiet 1, quiet 2, found)
        (Ensures->>= (Canceled at_end s (m.clock 0)) _ _ _
          (canceled_lem at_end s (m.clock 0) fresh.0 u)
          λ t (same, status, mark, events).
            let event = event_of at_end s (m.clock 0) in
            rw (rows_of t same, events)
              (Ensures->>= (Stored event db.outbox) _ _ _
                (dispatch-one event db.outbox (total (to_dto event)))
                λ outbox kept. record {
                  stored = kept;
                  marked = marked_rows at_end s t same status mark db.subscriptions;
                  untouched = refl;
                }))
    where
      rows_of :
          (t : Subscription) → t.id ≡ s.id → any (λ row. row.id == t.id) db.subscriptions ≡ true
      rows_of t same = rw same (loaded id db.subscriptions s none found).1

-- A subscription that CancelSubscription has loaded has no public identifier of its customer, since
-- the table has no column for it. So the event of an immediate cancellation, with the Raise of
-- DomainEvents, says in its payload that "customer_public_id" is the empty text.
pub cancellation_names_no_customer :
    (id : String) (fault : Option Error) (rows : List Subscription) (s t : Subscription)
    (now : Time)
    → Subscriptions.get_by_public_id id fault rows ≡ returns s
    → cancel raise_event s cancel_immediate now ≡ returns t
    → map (λ e. field_of "customer_public_id" (to_dto e)) t.root.domain_events ≡ some (text "") ∷ []
unfolding Subscriptions.get_by_public_id Subscriptions.scan_row cancel raise_event to_dto field_of
cancellation_names_no_customer id fault rows s t now found h =
    let blank =
      find_first-scanned (λ x. (x.root ≡ no_events) × (x.customer_public_id ≡ ""))
        subscription_not_found _ Subscriptions.scan_row fault rows s found (λ x. (refl, refl)) in
    ground (arith, blank, h)

-- Whatever Raise, the statements and the commits do, each attempt of RenewSubscription is all or
-- nothing: a call returns what one of its first MaxAttempts attempts returned, and leaves the tables
-- that this attempt left, or it ends in another way; apart from that, only attempts whose commits
-- returned an error though the database had committed leave something.
pub renew_subscription-Atomic :
    (raise : Raise) (marshal : Dto → Option String) (c : Config) (weather : ℕ → Weather)
    (m : ℕ → Meets) (held : ℕ → Option Invoice) (id : Uuid) (db : Database)
    → Atomic c weather
        (λ i. renew_subscription_body raise marshal (m i) (held i) id)
        db
        (renew_subscription raise marshal c weather m held id db)
unfolding renew_subscription
renew_subscription-Atomic raise marshal c weather m held id db =
    execute_in_transaction-Atomic c weather
      (λ i. renew_subscription_body raise marshal (m i) (held i) id) db
