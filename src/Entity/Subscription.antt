-- ===== src/Entity/Subscription.antt =====
-- internal/entity/subscription.go: a subscription, its billing period and its renewal, and
-- NewRenewalInvoice of internal/entity/invoice.go.
pub mod Renewal
pub mod Lifecycle
use billing_simulator.Base.{
  sub_time, pos_part, neg_part, ℕ, ◌+◌, ◌-◌, ◌*◌, ◌/◌, String, Bool, true, false, Option, none,
  some, ℤ, pos, Time, after, distance, ◌==◌, if◌then◌else◌,
}
use billing_simulator.Entity.Errors.{
  Outcome, returns, fails, panics, ◌>>=◌, message, subscription_already_canceled,
  subscription_unpaid,
}
use billing_simulator.Entity.Status.{
  InvoiceStatus, open_, SubscriptionStatus, active, past_due, canceled, SubscriptionCancelMode,
  cancel_immediate, cancel_at_period_end, other_mode, is_canceled, is_unpaid, is_active,
  is_past_due,
}
use billing_simulator.Entity.Events.{
  Uuid, DomainEvent, subscription_was_created, subscription_was_canceled, subscription_was_updated,
  subscription_was_renewed,
}
use billing_simulator.Entity.Aggregate.{
  AggregateRoot, Raise, raise_event, no_events, Draw, generate_public_id,
}
use billing_simulator.Entity.Price.{Price, next_billing_date}
use billing_simulator.Entity.Invoice.{Invoice, raise_created}

-- CancellationDetails and Metadata are never set but to their zero values.
pub record Subscription : Type 0 where
  pub id : Uuid
  pub public_id : String
  pub customer_id : Uuid
  pub customer_public_id : String
  pub price_id : Uuid
  pub price_public_id : String
  pub status : SubscriptionStatus
  pub current_period_start : Time
  pub current_period_end : Time
  pub next_billing_at : Time
  pub trial_start : Option Time
  pub trial_end : Option Time
  pub canceled_at : Option Time
  pub at_period_end : Bool
  pub deleted_at : Option Time
  pub created_at : Time
  pub updated_at : Time
  pub root : AggregateRoot

-- The start of the next period, by `Renew`. Where the period has ended, whole periods that were
-- missed are skipped, as far as the differences fit an int64, at which `Sub` stops; dividing by an
-- empty period panics. A period that ends before it starts has a negative duration: its quotient by
-- the overrun is negative too, so the product that Go adds is that of the magnitudes. The product is
-- not above the overrun, and does not wrap.
unfoldable pub next_period_start : Time → Time → Time → Outcome Time
unfolding sub_time
next_period_start start end now =
    if after now end
    then (let period = sub_time end start in
        let size = pos_part period + neg_part period in
        let overrun = pos_part (sub_time now end) in
        if size == 0 then panics else returns (end + size * (overrun / size)))
    else returns end

module _ (raise : Raise) where
  -- `NewSubscription`
  unfoldable pub new_subscription :
      Draw → Uuid → Uuid → String → String → Time → Time → Time → Outcome Subscription
  unfolding generate_public_id
  new_subscription d customer price customer_public price_public start end now = do
    public ← generate_public_id "sub" d
    r ← raise no_events (
        subscription_was_created (record {
          subscription_id = d.uuid;
          subscription_public_id = public;
          customer_id = customer;
          customer_public_id = customer_public;
          price_id = price;
          price_public_id = price_public;
          status = active;
          current_period_end = end;
          next_billing_at = end;
          created_at = now;
        }))
    returns (record {
      id = d.uuid;
      public_id = public;
      customer_id = customer;
      customer_public_id = customer_public;
      price_id = price;
      price_public_id = price_public;
      status = active;
      current_period_start = start;
      current_period_end = end;
      next_billing_at = end;
      trial_start = none;
      trial_end = none;
      canceled_at = none;
      at_period_end = false;
      deleted_at = none;
      created_at = now;
      updated_at = now;
      root = r;
    })

  -- `markUpdated`
  mark_updated : Subscription → Time → Outcome Subscription
  mark_updated s now = do
    r ← raise s.root (
        subscription_was_updated (record {
          subscription_id = s.id;
          subscription_public_id = s.public_id;
          customer_id = s.customer_id;
          customer_public_id = s.customer_public_id;
          status = s.status;
          cancel_at_period_end = s.at_period_end;
          updated_at = now;
        }))
    returns (record s { updated_at = now; root = r })

  -- The event that `Cancel` and `MarkCanceled` raise.
  raise_canceled : Subscription → Time → Outcome Subscription
  raise_canceled s now = do
    r ← raise s.root (
        subscription_was_canceled (record {
          subscription_id = s.id;
          subscription_public_id = s.public_id;
          customer_id = s.customer_id;
          customer_public_id = s.customer_public_id;
          status = s.status;
          canceled_at = now;
          at_period_end = s.at_period_end;
        }))
    returns (record s { root = r })

  cancel_by : SubscriptionCancelMode → Subscription → Time → Outcome Subscription
  unfolding mark_updated raise_canceled
  cancel_by cancel_immediate s now =
      raise_canceled
        (record s {
          status = canceled;
          canceled_at = some now;
          at_period_end = false;
          updated_at = now;
        })
        now
  cancel_by cancel_at_period_end s now = mark_updated (record s { at_period_end = true }) now
  cancel_by other_mode s now = fails (message "unknown cancel mode")

  -- `Cancel`
  unfoldable pub cancel : Subscription → SubscriptionCancelMode → Time → Outcome Subscription
  unfolding cancel_by is_canceled
  cancel s mode now =
      if is_canceled s.status then fails subscription_already_canceled else cancel_by mode s now

  -- `NewRenewalInvoice`
  unfoldable pub new_renewal_invoice : Draw → Subscription → Price → Time → Outcome Invoice
  unfolding raise_created generate_public_id
  new_renewal_invoice d sub price now = do
    public ← generate_public_id "inv" d
    let start = sub.current_period_end
    raise_created raise (record {
      id = d.uuid;
      public_id = public;
      customer_id = sub.customer_id;
      customer_public_id = sub.customer_public_id;
      subscription_id = some sub.id;
      subscription_public_id = some sub.public_id;
      amount = price.amount;
      amount_paid = pos 0;
      amount_remaining = price.amount;
      currency = price.currency;
      status = open_;
      period_start = some start;
      period_end = some (next_billing_date price start);
      due_date = some start;
      attempt_count = 0;
      attempted_at = none;
      deleted_at = none;
      created_at = now;
      updated_at = now;
      root = no_events;
    })

  abbrev renewed_event : Subscription → Invoice → Time → DomainEvent
  renewed_event s inv now = subscription_was_renewed (record {
    subscription_id = s.id;
    subscription_public_id = s.public_id;
    customer_id = s.customer_id;
    customer_public_id = s.customer_public_id;
    invoice_id = inv.id;
    invoice_public_id = inv.public_id;
    invoice_amount = inv.amount;
    invoice_currency = inv.currency;
    invoice_status = inv.status;
    new_period_end = s.current_period_end;
    renewed_at = now;
  })

  -- The subscription in its next period.
  unfoldable pub advance : Subscription → Price → Time → Time → Subscription
  advance s price start now =
      let end = next_billing_date price start in
      record s {
        current_period_start = start;
        current_period_end = end;
        next_billing_at = end;
        updated_at = now;
      }

  -- The end of `Renew`, once the start of the new period is known.
  unfoldable pub renew_from :
      Draw → Subscription → Time → Price → Time → Outcome (Subscription × Invoice)
  unfolding advance new_renewal_invoice raise_event
  renew_from d s now price start = do
    let t = advance s price start now
    inv ← new_renewal_invoice d t price now
    r ← raise_event t.root (renewed_event t inv now)
    returns (record t { root = r }, inv)

  -- `Renew`. On an error Go leaves the subscription half renewed in memory; its one caller drops
  -- it then.
  unfoldable pub renew : Draw → Subscription → Time → Price → Outcome (Subscription × Invoice)
  unfolding is_canceled is_unpaid
  renew d s now price =
      if is_canceled s.status
      then fails subscription_already_canceled
      else if is_unpaid s.status
      then fails subscription_unpaid
      else (do
        start ← next_period_start s.current_period_start s.current_period_end now
        renew_from d s now price start)

  -- `ConfirmRenewal`
  unfoldable pub confirm_renewal : Subscription → Time → Invoice → Time → Outcome Subscription
  confirm_renewal s new_end inv now = do
    let t = record s {
      current_period_start = s.current_period_end;
      current_period_end = new_end;
      next_billing_at = new_end;
      status = active;
      updated_at = now;
    }
    r ← raise t.root (renewed_event t inv now)
    returns (record t { root = r })

  -- `MarkPaid`
  unfoldable pub mark_subscription_paid : Subscription → Time → Outcome Subscription
  unfolding is_active mark_updated
  mark_subscription_paid s now =
      if is_active s.status then returns s else mark_updated (record s { status = active }) now

  -- `MarkPastDue`
  unfoldable pub mark_past_due : Subscription → Time → Outcome Subscription
  unfolding is_past_due mark_updated
  mark_past_due s now =
      if is_past_due s.status then returns s else mark_updated (record s { status = past_due }) now

  -- `MarkCanceled`
  unfoldable pub mark_canceled : Subscription → Time → Outcome Subscription
  unfolding is_canceled raise_canceled
  mark_canceled s now =
      if is_canceled s.status
      then returns s
      else raise_canceled (record s { status = canceled; canceled_at = some now; updated_at = now })
          now
