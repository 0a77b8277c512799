-- ===== src/Entity/PaymentIntent.antt =====
-- internal/entity/payment_intent.go: an attempt to collect an invoice.
pub mod Capture
use billing_simulator.Base.{
  String, Bool, true, false, ◌&&◌, ◌||◌, Option, none, some, ℤ, pos, add_64, sub_64, leb_ℤ, ltb_ℤ,
  eqb_ℤ, Time, if◌then◌else◌,
}
use billing_simulator.Entity.Errors.{
  Outcome, returns, fails, ◌>>=◌, message, invalid_capture_amount,
}
use billing_simulator.Entity.Status.{
  PaymentIntentStatus, requires_payment_method, requires_capture, processing, succeeded,
}
use billing_simulator.Entity.Events.{
  Uuid, DomainEvent, payment_intent_has_succeeded, payment_intent_has_failed,
}
use billing_simulator.Entity.Aggregate.{
  AggregateRoot, Raise, raise_event, no_events, Draw, generate_public_id,
}

-- `last_payment_error` is the code and the decline code that the JSON text holds. Metadata,
-- PaymentMethodID and PaymentMethodType are constant.
pub record PaymentIntent : Type 0 where
  pub id : Uuid
  pub public_id : String
  pub invoice_id : Option Uuid
  pub customer_id : Uuid
  pub amount : ℤ
  pub amount_captured : ℤ
  pub currency : String
  pub status : PaymentIntentStatus
  pub last_payment_error : Option (String × String)
  pub deleted_at : Option Time
  pub created_at : Time
  pub updated_at : Time
  pub root : AggregateRoot

-- `NewPaymentIntent`
unfoldable pub new_payment_intent :
    Draw → Uuid → Option Uuid → ℤ → String → Time → Outcome PaymentIntent
unfolding generate_public_id
new_payment_intent d customer invoice amount currency now = do
  public ← generate_public_id "pi" d
  returns (record {
    id = d.uuid;
    public_id = public;
    invoice_id = invoice;
    customer_id = customer;
    amount = amount;
    amount_captured = pos 0;
    currency = currency;
    status = requires_payment_method;
    last_payment_error = none;
    deleted_at = none;
    created_at = now;
    updated_at = now;
    root = no_events;
  })

abbrev succeeded_event : PaymentIntent → Time → DomainEvent
succeeded_event pi now = payment_intent_has_succeeded (record {
  payment_intent_id = pi.id;
  payment_intent_public_id = pi.public_id;
  customer_id = pi.customer_id;
  invoice_id = pi.invoice_id;
  amount = pi.amount;
  currency = pi.currency;
  succeeded_at = now;
})

abbrev pub capturable : PaymentIntentStatus → Bool
capturable requires_capture = true
capturable processing = true
capturable _ = false

-- `CanCapture`
unfoldable pub can_capture : PaymentIntent → Bool
can_capture pi = ltb_ℤ pi.amount_captured pi.amount && capturable pi.status

-- `Capture`, which raises through the list of events itself
unfoldable pub capture : PaymentIntent → ℤ → Time → Outcome PaymentIntent
unfolding raise_event
capture pi amount now =
    if capturable pi.status
    then (if leb_ℤ amount (pos 0) || ltb_ℤ (sub_64 pi.amount pi.amount_captured) amount
        then fails invalid_capture_amount
        else (let total = add_64 pi.amount_captured amount in
            if eqb_ℤ total pi.amount
            then (do
              r ← raise_event pi.root (succeeded_event pi now)
              returns (record pi {
                amount_captured = total;
                updated_at = now;
                status = succeeded;
                root = r;
              }))
            else returns (record pi { amount_captured = total; updated_at = now })))
    else fails (message "cannot capture payment in status")

module _ (raise : Raise) where
  -- `MarkSucceeded`
  unfoldable pub mark_succeeded : PaymentIntent → Time → Outcome PaymentIntent
  mark_succeeded pi now = do
    r ← raise pi.root (succeeded_event pi now)
    returns
        (record pi { status = succeeded; amount_captured = pi.amount; updated_at = now; root = r })

  -- `MarkFailed`
  unfoldable pub mark_failed : PaymentIntent → Time → String → String → Outcome PaymentIntent
  mark_failed pi now error_code decline_code = do
    r ← raise pi.root (
        payment_intent_has_failed (record {
          payment_intent_id = pi.id;
          payment_intent_public_id = pi.public_id;
          customer_id = pi.customer_id;
          invoice_id = pi.invoice_id;
          amount = pi.amount;
          currency = pi.currency;
          error_code = error_code;
          decline_code = decline_code;
          failed_at = now;
        }))
    returns (record pi {
      status = requires_payment_method;
      updated_at = now;
      last_payment_error = some (error_code, decline_code);
      root = r;
    })
