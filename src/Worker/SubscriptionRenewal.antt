-- ===== src/Worker/SubscriptionRenewal.antt =====
-- internal/worker/subscription_renewal.go and internal/service/time.go: the renewals of a batch.
-- Each renewal is one transaction, so what the ten goroutines of TimeService do to the tables is
-- what they do one after the other, in some order.
pub mod Batch
use billing_simulator.Base.{
  ℕ, suc, String, Bool, true, false, Option, none, some, List, [], ◌∷◌, Time, if◌then◌else◌,
}
use billing_simulator.Entity.Errors.{Outcome, returns, fails, panics, overflows, Error}
use billing_simulator.Entity.Aggregate.{Raise}
use billing_simulator.Entity.Invoice.{Invoice}
use billing_simulator.Entity.Subscription.{Subscription}
use billing_simulator.Repository.Subscriptions.{get_active_for_renewal}
use billing_simulator.Repository.Database.{Database}
use billing_simulator.Platform.Transaction.{Config, Weather}
use billing_simulator.Service.Call.{Meets}
use billing_simulator.Service.EventDispatcher.{Dto}
use billing_simulator.Service.Billing.{renew_subscription}

-- A renewal that fails is logged, and the loop goes on.
unfoldable pub go_on :
    {A : Type 0}
    → Outcome A × Database
    → (Database → Outcome (Unit {0}) × Database)
    → Outcome (Unit {0}) × Database
go_on (returns a, db) rest = rest db
go_on (fails e, db) rest = rest db
go_on (panics, db) rest = (panics, db)
go_on (overflows, db) rest = (overflows, db)

-- By the number of the renewal: the weather and the inputs of each attempt of its transaction, with
-- the invoice that its variable holds by then.
module _ (raise : Raise) (marshal : Dto → Option String) (c : Config) (weather : ℕ → ℕ → Weather)
    (m : ℕ → ℕ → Meets) (held : ℕ → ℕ → Option Invoice) where
  -- The loop of `processRenewals`
  unfoldable pub renew_each : ℕ → List Subscription → Database → Outcome (Unit {0}) × Database
  unfolding go_on renew_subscription
  renew_each n [] db = (returns tt, db)
  renew_each n (s ∷ ss) db =
      go_on (renew_subscription raise marshal c (weather n) (m n) (held n) s.id db)
        λ db'. renew_each (suc n) ss db'

  -- What `processRenewals` does with the answer of `GetActiveForRenewal`
  unfoldable pub renew_selected :
      Outcome (List Subscription) → Database → Outcome (Unit {0}) × Database
  unfolding renew_each
  renew_selected (returns subs) db = renew_each 0 subs db
  renew_selected (fails e) db = (returns tt, db)
  renew_selected panics db = (panics, db)
  renew_selected overflows db = (overflows, db)

  -- `processRenewals`
  unfoldable pub process_renewals : Time → Option Error → Database → Outcome (Unit {0}) × Database
  unfolding renew_selected get_active_for_renewal
  process_renewals now fault db =
      renew_selected (get_active_for_renewal now fault db.subscriptions) db

  -- `processSingleSubscription` of TimeService, for each subscription in the order in which the
  -- goroutines take them, one after the other, with whether they get its lock.
  unfoldable pub renew_locked :
      ℕ → List (Bool × Subscription) → Database → Outcome (Unit {0}) × Database
  unfolding go_on renew_subscription
  renew_locked n [] db = (returns tt, db)
  renew_locked n ((false, s) ∷ ss) db = renew_locked (suc n) ss db
  renew_locked n ((true, s) ∷ ss) db =
      go_on (renew_subscription raise marshal c (weather n) (m n) (held n) s.id db)
        λ db'. renew_locked (suc n) ss db'
