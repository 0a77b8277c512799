-- ===== src/Service/Time.antt =====
-- internal/service/time.go: an advance of the clock, and the renewals that it makes due, of which each
-- is a transaction that ends before the next begins. In which order the goroutines take the
-- subscriptions, and whose lock they get, is an argument; that the transactions of the ten goroutines
-- overlap at READ COMMITTED is left out.
pub mod Advances
use billing_simulator.Base.{ℕ, String, Bool, Option, none, some, List, Time, Duration}
use billing_simulator.Entity.Errors.{Outcome, returns, fails, panics, overflows, Error}
use billing_simulator.Entity.Aggregate.{Raise}
use billing_simulator.Entity.Invoice.{Invoice}
use billing_simulator.Entity.Subscription.{Subscription}
use billing_simulator.Repository.Subscriptions.{get_active_for_renewal}
use billing_simulator.Repository.Database.{Database}
use billing_simulator.Platform.Transaction.{Config, Weather}
use billing_simulator.Service.Call.{Meets}
use billing_simulator.Service.EventDispatcher.{Dto}
use billing_simulator.Clock
use billing_simulator.Clock.{VirtualClock, now, advance}
use billing_simulator.Worker.SubscriptionRenewal.{renew_locked}

-- `GetCurrentTime`
unfoldable pub get_current_time : Time → VirtualClock → Time
unfolding now
get_current_time = now

-- The subscriptions of a batch in the order in which they are taken, with whether the lock is got.
abbrev pub Schedule : Type 0
Schedule = List Subscription → List (Bool × Subscription)

module _ (raise : Raise) (marshal : Dto → Option String) (c : Config) (weather : ℕ → ℕ → Weather)
    (m : ℕ → ℕ → Meets) (held : ℕ → ℕ → Option Invoice) (schedule : Schedule) where
  -- What `CheckAndRenewSubscriptions` does with the answer of `GetActiveForRenewal`
  unfoldable pub renew_found :
      Outcome (List Subscription) → Database → Outcome (Unit {0}) × Database
  unfolding renew_locked
  renew_found (returns subs) db = renew_locked raise marshal c weather m held 0 (schedule subs) db
  renew_found (fails e) db = (fails e, db)
  renew_found panics db = (panics, db)
  renew_found overflows db = (overflows, db)

  -- `CheckAndRenewSubscriptions`
  unfoldable pub check_and_renew_subscriptions :
      Time → Option Error → Database → Outcome (Unit {0}) × Database
  unfolding renew_found get_active_for_renewal
  check_and_renew_subscriptions at fault db =
      renew_found (get_active_for_renewal at fault db.subscriptions) db

  -- What `AdvanceTime` does after the advance, at a later real time.
  unfoldable pub after_advance :
      Time
      → Option Error
      → Database
      → Option Error × VirtualClock
      → (Outcome (Unit {0}) × Database) × VirtualClock
  unfolding check_and_renew_subscriptions now
  after_advance real fault db (some e, clock) = ((fails e, db), clock)
  after_advance real fault db (none, clock) =
      (check_and_renew_subscriptions (now real clock) fault db, clock)

  -- `AdvanceTime`
  unfoldable pub advance_time :
      Clock.Meets
      → Duration
      → Time
      → Option Error
      → Database
      → VirtualClock
      → (Outcome (Unit {0}) × Database) × VirtualClock
  unfolding after_advance advance
  advance_time cm d real fault db clock = after_advance real fault db (advance cm d clock)
