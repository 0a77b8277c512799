-- ===== src/Worker/SubscriptionRenewal/Batch.antt =====
-- internal/worker/subscription_renewal.go: what a batch leaves of the tables.
use billing_simulator.Base.{Bool, true, false, ℕ, suc, ◌≡◌, String, Option, List, [], ◌∷◌, map}
use billing_simulator.Entity.Errors.{Outcome, returns, fails, panics, overflows}
use billing_simulator.Entity.Events.{Uuid}
use billing_simulator.Entity.Aggregate.{Raise}
use billing_simulator.Entity.Invoice.{Invoice}
use billing_simulator.Entity.Subscription.{Subscription}
use billing_simulator.Repository.Database.{Database}
use billing_simulator.Platform.Transaction.{Config, Weather}
use billing_simulator.Platform.Transaction.Attempts.{
  Atomic, Unseen, nothing, then_unseen, execute_in_transaction-Atomic,
}
use billing_simulator.Service.Call.{Meets}
use billing_simulator.Service.EventDispatcher.{Dto}
use billing_simulator.Service.Billing.{renew_subscription, renew_subscription_body}
use billing_simulator.Worker.SubscriptionRenewal.{go_on, renew_each, renew_locked}

module _ (raise : Raise) (marshal : Dto → Option String) where
  -- From one state of the tables to another: each subscription of a list, in order, is renewed by
  -- whole runs of RenewSubscription, each on the state that it finds, or left out; the list may end
  -- early. A second run of a subscription comes behind a commit that has returned an error though the
  -- database had committed.
  pub data Renewals : List Uuid → Database → Database → Type 0 where
    finished : {ids : List Uuid} {db : Database} → Renewals ids db db
    left_out :
        {id : Uuid} {ids : List Uuid} {db db' : Database}
        → Renewals ids db db'
        → Renewals (id ∷ ids) db db'
    renewed :
        {id : Uuid} {ids : List Uuid} {db db'' : Database} (db' : Database)
        (held result : Option Invoice) (m : Meets)
        → renew_subscription_body raise marshal m held id db ≡ returns (result, db')
        → Renewals (id ∷ ids) db' db''
        → Renewals (id ∷ ids) db db''

  module _ (c : Config) (weather : ℕ → ℕ → Weather) (m : ℕ → ℕ → Meets)
      (held : ℕ → ℕ → Option Invoice) where
    Unseen-Renewals :
        (n : ℕ) (id : Uuid) (ids : List Uuid) {db mid last : Database}
        → Unseen c
            (weather n)
            (λ i. renew_subscription_body raise marshal (m n i) (held n i) id)
            db
            mid
        → Renewals (id ∷ ids) mid last
        → Renewals (id ∷ ids) db last
    Unseen-Renewals n id ids nothing r = r
    Unseen-Renewals n id ids (then_unseen {db} {db'} {last} {a} i e h f l u) r =
        renewed db' (held n i) a (m n i) f (Unseen-Renewals n id ids u r)

    one_renewal :
        (n : ℕ) (id : Uuid) (ids : List Uuid) (db : Database)
        (r : Outcome (Option Invoice) × Database) (rest : Database → Outcome (Unit {0}) × Database)
        → Atomic c
            (weather n)
            (λ i. renew_subscription_body raise marshal (m n i) (held n i) id)
            db
            r
        → ((db' : Database) → Renewals ids db' (rest db').1)
        → Renewals (id ∷ ids) db (go_on r rest).1
    unfolding go_on
    one_renewal n id ids db (returns a, db') rest (found, u, (i, h, e)) k =
        Unseen-Renewals n id ids u (renewed db' (held n i) a (m n i) e (left_out (k db')))
    one_renewal n id ids db (fails error, db') rest u k =
        Unseen-Renewals n id ids u (left_out (k db'))
    one_renewal n id ids db (panics, db') rest u k = Unseen-Renewals n id ids u finished
    one_renewal n id ids db (overflows, db') rest u k = Unseen-Renewals n id ids u finished

    -- Whatever the attempts of the transactions meet, the tables that a batch leaves are those that a
    -- sequence of whole renewals leaves, of subscriptions of the batch in its order: no renewal is left
    -- half done, and one that fails does not keep the ones after it from being made.
    pub renew_each-Renewals :
        (n : ℕ) (subs : List Subscription) (db : Database)
        → Renewals (map (λ s. s.id) subs) db (renew_each raise marshal c weather m held n subs db).1
    unfolding renew_each renew_subscription
    renew_each-Renewals n [] db = finished
    renew_each-Renewals n (s ∷ ss) db =
        one_renewal n s.id (map (λ s. s.id) ss) db _ _
          (execute_in_transaction-Atomic c (weather n)
            (λ i. renew_subscription_body raise marshal (m n i) (held n i) s.id) db)
          λ db'. renew_each-Renewals (suc n) ss db'

    -- A batch of which some subscriptions are locked by others.
    pub renew_locked-Renewals :
        (n : ℕ) (subs : List (Bool × Subscription)) (db : Database)
        → Renewals
            (map (λ s. s.1.id) subs)
            db
            (renew_locked raise marshal c weather m held n subs db).1
    unfolding renew_locked renew_subscription
    renew_locked-Renewals n [] db = finished
    renew_locked-Renewals n ((false, s) ∷ ss) db = left_out (renew_locked-Renewals (suc n) ss db)
    renew_locked-Renewals n ((true, s) ∷ ss) db =
        one_renewal n s.id (map (λ s. s.1.id) ss) db _ _
          (execute_in_transaction-Atomic c (weather n)
            (λ i. renew_subscription_body raise marshal (m n i) (held n i) s.id) db)
          λ db'. renew_locked-Renewals (suc n) ss db'
