-- ===== src/Service/Time/Advances.antt =====
-- internal/service/time.go: what an advance of the clock leaves of the tables.
use billing_simulator.Base.{ℕ, String, Option, none, some, List, [], map, Time, Duration}
use billing_simulator.Entity.Errors.{Outcome, returns, fails, panics, overflows, Error}
use billing_simulator.Entity.Events.{Uuid}
use billing_simulator.Entity.Aggregate.{Raise}
use billing_simulator.Entity.Invoice.{Invoice}
use billing_simulator.Entity.Subscription.{Subscription}
use billing_simulator.Repository.Subscriptions.{get_active_for_renewal}
use billing_simulator.Repository.Database.{Database}
use billing_simulator.Platform.Transaction.{Config, Weather}
use billing_simulator.Service.Call.{Meets}
use billing_simulator.Service.EventDispatcher.{Dto}
use billing_simulator.Service.Time.{
  Schedule, renew_found, check_and_renew_subscriptions, after_advance, advance_time,
}
use billing_simulator.Clock
use billing_simulator.Clock.{VirtualClock, now, advance}
use billing_simulator.Worker.SubscriptionRenewal.Batch.{Renewals, finished, renew_locked-Renewals}

-- The identifiers of a batch, in the order in which it is taken.
unfoldable pub ids_of : Schedule → Outcome (List Subscription) → List Uuid
ids_of schedule (returns subs) = map (λ s. s.1.id) (schedule subs)
ids_of schedule _ = []

module _ (raise : Raise) (marshal : Dto → Option String) (c : Config) (weather : ℕ → ℕ → Weather)
    (m : ℕ → ℕ → Meets) (held : ℕ → ℕ → Option Invoice) (schedule : Schedule) where
  found_Renewals :
      (r : Outcome (List Subscription)) (db : Database)
      → Renewals raise marshal
          (ids_of schedule r)
          db
          (renew_found raise marshal c weather m held schedule r db).1
  unfolding renew_found ids_of
  found_Renewals (returns subs) db =
      renew_locked-Renewals raise marshal c weather m held 0 (schedule subs) db
  found_Renewals (fails e) db = finished
  found_Renewals panics db = finished
  found_Renewals overflows db = finished

  advanced_Renewals :
      (real : Time) (fault : Option Error) (db : Database) (r : Option Error × VirtualClock)
      → Renewals raise marshal
          (ids_of schedule (get_active_for_renewal (now real r.1) fault db.subscriptions))
          db
          (after_advance raise marshal c weather m held schedule real fault db r).0.1
  unfolding after_advance check_and_renew_subscriptions
  advanced_Renewals real fault db (some e, clock) = finished
  advanced_Renewals real fault db (none, clock) =
      found_Renewals (get_active_for_renewal (now real clock) fault db.subscriptions) db

  -- Whatever the clock, Redis, the transactions and the locks meet, and in whatever order the
  -- goroutines take the subscriptions that are due when the clock has been advanced: AdvanceTime
  -- leaves the tables as a sequence of whole renewals leaves them, of those subscriptions in that
  -- order, some of which may be left out.
  pub advance_time-Renewals :
      (cm : Clock.Meets) (d : Duration) (real : Time) (fault : Option Error) (db : Database)
      (clock : VirtualClock)
      → let r = advance_time raise marshal c weather m held schedule cm d real fault db clock in
        Renewals raise marshal
          (ids_of schedule
            (get_active_for_renewal (now real (advance cm d clock).1) fault db.subscriptions))
          db
          r.0.1
  unfolding advance_time
  advance_time-Renewals cm d real fault db clock =
      advanced_Renewals real fault db (advance cm d clock)
