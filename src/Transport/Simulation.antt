-- ===== src/Transport/Simulation.antt =====
-- internal/transport/http/handlers.go, facade.go and middleware.go: the handlers that steer the
-- simulation, over TimeService and PaymentRateManager, the health check, and the middleware for the
-- request's identifier and the level of its log line.
use billing_simulator.Base.{
  ◌≡◌, ℕ, refl, String, Bool, true, false, Option, none, some, Time, Duration, str_eq, leb,
  if◌then◌else◌,
}
use billing_simulator.Entity.Errors.{Outcome, Error}
use billing_simulator.Entity.Aggregate.{Raise}
use billing_simulator.Entity.Invoice.{Invoice}
use billing_simulator.Repository.Database.{Database}
use billing_simulator.Platform.Transaction.{Config, Weather}
use billing_simulator.Service.Call.{Meets}
use billing_simulator.Service.EventDispatcher.{Dto}
use billing_simulator.Service.Time
use billing_simulator.Service.Time.{Schedule}
use billing_simulator.Service.PaymentRate.{
  Float64, PaymentRateManager, get_success_rate, set_success_rate,
}
use billing_simulator.Clock
use billing_simulator.Clock.{VirtualClock}
use billing_simulator.Transport.Response.{Response, replied, refused, answer, handle_service_error}

pub record HealthResponse : Type 0 where
  pub status : String
  pub service : String
  pub time : Time

-- `requestIDMiddleware`: the identifier of the request, with the one that would be drawn
unfoldable pub request_id : String → String → String
request_id header drawn = if str_eq header "" then drawn else header

pub data Level : Type 0 where
  info_level warn_level error_level : Level

-- The level at which `loggingMiddleware` logs a request, by the status of its response
unfoldable pub log_level : ℕ → Level
log_level status =
    if leb 500 status then error_level else if leb 400 status then warn_level else info_level

-- `Health`
unfoldable pub health : Time → Response HealthResponse
health real = replied 200 (record { status = "ok"; service = ""; time = real })

-- `GetCurrentTime`
unfoldable pub get_current_time : Time → VirtualClock → Response HealthResponse
unfolding Time.get_current_time
get_current_time real clock = replied 200 (record {
  status = "ok";
  service = "billing-stripe-sim";
  time = Time.get_current_time real clock;
})

module _ (raise : Raise) (marshal : Dto → Option String) (c : Config) (weather : ℕ → ℕ → Weather)
    (m : ℕ → ℕ → Meets) (held : ℕ → ℕ → Option Invoice) (schedule : Schedule) where
  -- The response to what AdvanceTime of the service has done, at the real time of the response.
  unfoldable pub time_advanced :
      Time
      → (Outcome (Unit {0}) × Database) × VirtualClock
      → Option (Response HealthResponse) × Database × VirtualClock
  unfolding answer handle_service_error Time.get_current_time
  time_advanced real ((r, db), clock) = (
    answer handle_service_error r (λ _. some (
        replied 200 (record {
          status = "time_advanced";
          service = "billing-stripe-sim";
          time = Time.get_current_time real clock;
        }))),
    db,
    clock,
  )

  -- `AdvanceTime`, for the duration of the request
  unfoldable pub advance_time :
      Clock.Meets
      → Option Duration
      → Time
      → Option Error
      → Time
      → Database
      → VirtualClock
      → Option (Response HealthResponse) × Database × VirtualClock
  unfolding time_advanced Time.advance_time
  advance_time cm none real fault later db clock =
      (some (refused 400 "invalid_request" true), db, clock)
  advance_time cm (some d) real fault later db clock =
      time_advanced later
        (Time.advance_time raise marshal c weather m held schedule cm d real fault db clock)

module _ (f : Float64) where
  open f use {Value, lt, zero, one}

  -- `GetPaymentSuccessRate`
  unfoldable pub get_payment_success_rate : PaymentRateManager f → Response Value
  unfolding get_success_rate
  get_payment_success_rate m = replied 200 (get_success_rate f m)

  rate_set : Value → Option Error × PaymentRateManager f → Response Value × PaymentRateManager f
  rate_set rate (some e, m) = (refused 400 "invalid_rate" true, m)
  rate_set rate (none, m) = (replied 200 rate, m)

  -- `SetPaymentSuccessRate`, where gin binds what its validator admits: the rule of the source is
  -- `required,gte=0,lte=1`.
  unfoldable pub set_payment_success_rate :
      (Value → Bool) → Value → PaymentRateManager f → Response Value × PaymentRateManager f
  unfolding rate_set set_success_rate
  set_payment_success_rate admits rate m =
      if admits rate
      then rate_set rate (set_success_rate f rate m)
      else (refused 400 "invalid_request" true, m)

  -- The validator takes the rule `required` to refuse the zero value of a number.
  abbrev pub RefusesZero : (Value → Bool) → Type 0
  RefusesZero admits = admits zero ≡ false

  is_replied : Response Value → Bool
  is_replied (replied _ _) = true
  is_replied (refused _ _ _) = false

  -- POST /v1/simulation/payment-rate never sets the rate to 0, though PaymentRateManager takes it and
  -- the annotation promises 0.0 to 1.0: it answers 400 and keeps the rate.
  pub rate_zero_is_refused :
      (admits : Value → Bool) (m : PaymentRateManager f)
      → RefusesZero admits
      → lt zero zero ≡ false
      → lt one zero ≡ false
      → (set_payment_success_rate admits zero m ≡ (refused 400 "invalid_request" true, m))
        × (set_success_rate f zero m ≡ (none, record m { success_rate = zero }))
  unfolding set_payment_success_rate set_success_rate
  rate_zero_is_refused admits m h k l = (rw h refl, rw (k, l) refl)
