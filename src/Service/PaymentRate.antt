-- ===== src/Service/PaymentRate.antt =====
-- internal/service/payment_rate_manager.go, and what helpers.go does with the rate. The rate is a
-- float64, of which the source compares two values; the type and its comparison are arguments. The
-- mutex makes each operation one step.
use billing_simulator.Base.{◌≡◌, refl, false, true, Bool, ◌||◌, Option, none, some, if◌then◌else◌}
use billing_simulator.Entity.Errors.{Error, message}
use billing_simulator.Entity.Status.{InvoiceStatus, paid, open_}
use billing_simulator.Service.Call.{Meets, simulate_payment}

-- What is used of float64.
pub record Float64 : Type 1 where
  pub Value : Type 0
  pub lt : Value → Value → Bool
  pub zero : Value
  pub one : Value

-- `ErrInvalidSuccessRate`
abbrev pub invalid_success_rate : Error
invalid_success_rate = message "success rate must be between 0.0 and 1.0"

module _ (f : Float64) where
  open f use {Value, lt, zero, one}

  pub record PaymentRateManager : Type 0 where
    pub success_rate : Value

  -- `NewPaymentRateManager`
  unfoldable pub new_payment_rate_manager : Value → PaymentRateManager
  new_payment_rate_manager default_rate = record { success_rate = default_rate }

  -- `GetSuccessRate`
  unfoldable pub get_success_rate : PaymentRateManager → Value
  get_success_rate m = m.success_rate

  -- `SetSuccessRate`
  unfoldable pub set_success_rate : Value → PaymentRateManager → Option Error × PaymentRateManager
  set_success_rate rate m =
      if lt rate zero || lt one rate
      then (some invalid_success_rate, m)
      else (none, record m { success_rate = rate })

  -- The values of a context that internal/service/helpers.go names.
  pub record PaymentContext : Type 0 where
    pub forced : Option InvoiceStatus
    pub context_rate : Option Value

  -- `WithPaymentSuccessRate`
  unfoldable pub with_payment_success_rate : Value → PaymentContext → PaymentContext
  with_payment_success_rate rate ctx = record ctx { context_rate = some rate }

  -- `WithForcedPaymentStatus`
  unfoldable pub with_forced_payment_status : InvoiceStatus → PaymentContext → PaymentContext
  with_forced_payment_status status ctx = record ctx { forced = some status }

  -- What an attempt meets of a payment, with the number that `rand.Float64` draws.
  unfoldable pub meet_payment : PaymentContext → Value → PaymentRateManager → Meets → Meets
  unfolding get_success_rate
  meet_payment ctx drawn manager m = record m {
    forced = ctx.forced;
    lucky = lt drawn (get_success_rate manager);
  }

  -- A draw lies between 0, which it reaches, and 1, which it does not.
  abbrev pub IsDraw : Value → Type 0
  IsDraw drawn = (lt drawn zero ≡ false) × (lt drawn one ≡ true)

  -- A payment whose status the context does not force succeeds with certainty where the manager's rate
  -- is 1, and never where it is 0; one that is forced has the status that was set last. The rate that
  -- WithPaymentSuccessRate sets in the context has no effect on any payment.
  pub simulate_payment_extremes :
      (ctx : PaymentContext) (drawn rate : Value) (manager : PaymentRateManager)
      (status : InvoiceStatus) (m : Meets)
      → ctx.forced ≡ none
      → IsDraw drawn
      → (simulate_payment (meet_payment ctx drawn (record { success_rate = one }) m) ≡ paid)
        × (simulate_payment (meet_payment ctx drawn (record { success_rate = zero }) m) ≡ open_)
        × (simulate_payment (meet_payment (with_forced_payment_status status ctx) drawn manager m)
            ≡ status)
        × (simulate_payment (meet_payment (with_payment_success_rate rate ctx) drawn manager m)
            ≡ simulate_payment (meet_payment ctx drawn manager m))
  unfolding simulate_payment meet_payment with_forced_payment_status with_payment_success_rate
  simulate_payment_extremes ctx drawn rate manager status m free (low, high) =
      (rw (free, high) refl, rw (free, low) refl, refl, refl)
