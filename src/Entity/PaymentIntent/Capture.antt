-- ===== src/Entity/PaymentIntent/Capture.antt =====
-- PaymentIntent.Capture of internal/entity/payment_intent.go.
use billing_simulator.Base.{
  ℕ, ◌+◌, ◌≤◌, ◌<◌, ◌≡◌, ◌⊎◌, true, ℤ, pos, pos_part, int64_half, add_64, sub_64, Time, arith,
}
use billing_simulator.Entity.Errors.{returns, Ensures, is_returned}
use billing_simulator.Entity.Status.{succeeded}
use billing_simulator.Entity.PaymentIntent.{PaymentIntent, capturable, can_capture, capture}

-- An amount of `a` in an int64, of which `c` has been captured.
pub record Captured (pi : PaymentIntent) (a c : ℕ) : Type 0 where
  pub total : pi.amount ≡ pos a
  pub so_far : pi.amount_captured ≡ pos c
  pub within : c ≤ a
  pub fits : a < int64_half

-- A capture of `n` that is positive and no more than what is left is accepted in the states that
-- allow captures, and adds exactly `n`; the intent succeeds exactly when nothing is left, and
-- keeps its status before.
pub capture-adds :
    (pi : PaymentIntent) (a c n : ℕ) (now : Time)
    → Captured pi a c
    → capturable pi.status ≡ true
    → 0 < n
    → c + n ≤ a
    → Ensures (capture pi (pos n) now) (λ q.
      Captured q a (c + n)
      × ((c + n ≡ a) × (q.status ≡ succeeded) ⊎ (c + n < a) × (q.status ≡ pi.status)))
unfolding capture add_64 sub_64
capture-adds pi a c n now v s p h = ground arith

-- No capture that is accepted, of any int64 amount, takes the captured sum past the amount or
-- leaves it where it was.
pub capture_bounds :
    (pi q : PaymentIntent) (a c : ℕ) (amount : ℤ) (now : Time)
    → Captured pi a c
    → capture pi amount now ≡ returns q
    → Captured q a (pos_part q.amount_captured) × (c < pos_part q.amount_captured)
unfolding capture add_64 sub_64
capture_bounds pi q a c amount now v h = ground arith

-- CanCapture tells exactly whether a capture of one unit would be accepted.
pub can_capture-eq :
    (pi : PaymentIntent) (a c : ℕ) (now : Time)
    → Captured pi a c
    → can_capture pi ≡ is_returned (capture pi (pos 1) now)
unfolding can_capture capture add_64 sub_64
can_capture-eq pi a c now v = ground arith
