-- ===== src/Entity/Overflow.antt =====
-- What the recursion in AggregateRoot.Raise (internal/entity/aggregate.go) means for the
-- operations that raise their events through it.
use billing_simulator.Base.{ℕ, ◌≡◌, ◌≢◌, String, Bool, true, List, Option, some, ℤ, Time, arith}
use billing_simulator.Entity.Errors.{overflows}
use billing_simulator.Entity.Status.{
  BillingInterval, cancel_immediate, cancel_at_period_end, canceled,
}
use billing_simulator.Entity.Events.{Uuid}
use billing_simulator.Entity.Aggregate.{Draw, raise_root, raise_root-overflows}
use billing_simulator.Entity.Customer.{new_customer}
use billing_simulator.Entity.Product.{new_product}
use billing_simulator.Entity.Price.{new_price}
use billing_simulator.Entity.Invoice.{
  Invoice, can_be_paid, new_invoice, mark_paid, mark_payment_failed,
}
use billing_simulator.Entity.PaymentIntent.{PaymentIntent, mark_succeeded, mark_failed}
use billing_simulator.Entity.Subscription.{Subscription, new_subscription, cancel}

module _ (frames : ℕ) (d : Draw) (bytes : List ℕ) (drawn : d.bytes ≡ some bytes) where
  -- With the Raise of AggregateRoot as it stands, and whatever room the stack has, no customer,
  -- product, price, invoice or subscription is ever made: once the public identifier has been
  -- drawn, each constructor overflows the stack.
  pub constructors-overflow :
      (customer : Uuid) (name text : String) (amount : ℤ) (interval : BillingInterval)
      (sub : Option Uuid) (sub_public : Option String) (start end now : Time)
      → (new_customer (raise_root frames) d text name now ≡ overflows)
        × (new_product (raise_root frames) d name text now ≡ overflows)
        × (new_price (raise_root frames) d customer amount text interval amount now ≡ overflows)
        × (new_invoice (raise_root frames) d customer name sub sub_public amount text now
            ≡ overflows)
        × (new_subscription (raise_root frames) d customer customer name text start end now
            ≡ overflows)
  unfolding new_customer new_product new_price new_invoice new_subscription
  constructors-overflow customer name text amount interval sub sub_public start end now =
      grind (arith, raise_root-overflows)

-- With the Raise of AggregateRoot as it stands, and whatever room the stack has, a payment that
-- can be recorded overflows the stack, and so do a failed one, the end of a payment intent, and a
-- cancellation of a subscription that is not canceled.
pub updates-overflow :
    (frames : ℕ) (inv : Invoice) (pi : PaymentIntent) (s : Subscription) (now : Time)
    (code decline : String) (final : Bool)
    → (can_be_paid inv.status ≡ true → mark_paid (raise_root frames) inv now ≡ overflows)
      × (mark_payment_failed (raise_root frames) inv now code final ≡ overflows)
      × (mark_succeeded (raise_root frames) pi now ≡ overflows)
      × (mark_failed (raise_root frames) pi now code decline ≡ overflows)
      × (s.status ≢ canceled → cancel (raise_root frames) s cancel_immediate now ≡ overflows)
      × (s.status ≢ canceled → cancel (raise_root frames) s cancel_at_period_end now ≡ overflows)
unfolding mark_paid mark_payment_failed mark_succeeded mark_failed cancel
updates-overflow frames inv pi s now code decline final = grind (arith, raise_root-overflows)
