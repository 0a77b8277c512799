-- ===== src/Service/Call.antt =====
-- What one attempt of a transaction of internal/service meets, and the helpers of
-- internal/service/helpers.go.
use billing_simulator.Base.{ℕ, Bool, Option, none, some, Time, if◌then◌else◌}
use billing_simulator.Entity.Errors.{Error}
use billing_simulator.Entity.Events.{Uuid}
use billing_simulator.Entity.Status.{InvoiceStatus, paid, open_}
use billing_simulator.Entity.Aggregate.{Draw}

-- By their number within the attempt, from 0: the error of a statement, a reading of the clock, a
-- draw of a constructor, and the identifier of an event in the outbox; then the status that the
-- caller's context forces on payments, and whether `rand.Float64` is below the success rate.
pub record Meets : Type 0 where
  pub fault : ℕ → Option Error
  pub clock : ℕ → Time
  pub draw : ℕ → Draw
  pub event_id : ℕ → Uuid
  pub forced : Option InvoiceStatus
  pub lucky : Bool

-- `simulatePayment`
unfoldable pub simulate_payment : Meets → InvoiceStatus
simulate_payment m = elim m.forced [ some status ↦ status | none ↦ if m.lucky then paid else open_ ]
