-- ===== src/Examples/Time.antt =====
-- The theorems on the clock, on renewals in the course of time, and on locks, at concrete inputs.
use billing_simulator.Base.{
  ◌+◌, ◌-◌, ◌*◌, ◌≤◌, ◌≡◌, refl, true, false, none, some, [], ◌∷◌, ◌++◌, ◌==◌, length, All, arith,
  pos, add_64, day, add_date_days,
}
use billing_simulator.Entity.Errors.{returns, Ensures}
use billing_simulator.Entity.Status.{is_paid}
use billing_simulator.Entity.Aggregate.{raise_event, no_events}
use billing_simulator.Entity.Price.{next_billing_date, next_date}
use billing_simulator.Repository.Subscriptions
use billing_simulator.Repository.Subscriptions.{get_active_for_renewal}
use billing_simulator.Repository.Prices
use billing_simulator.Repository.CacheLock.{lock_key, unlock, lock}
use billing_simulator.Repository.CacheLock.Exclusion.{
  Locks, Reach, stay, next, acquire, expire, as_list, lock-exclusion,
}
use billing_simulator.Repository.CacheLock.Memory.{Keys, memory, memory-IsLawful}
use billing_simulator.Service.Call.{simulate_payment}
use billing_simulator.Repository.Customers
use billing_simulator.Repository.Database.{Database}
use billing_simulator.Entity.Customer.{Customer}
use billing_simulator.Service.Billing.{renew_subscription_body, create_subscription_body}
use billing_simulator.Service.Billing.Creation.{Created, create_subscription_body-Created}
use billing_simulator.Service.Billing.Once.{renew_subscription_body-once}
use billing_simulator.Service.Billing.Declined.{get_active_for_renewal-declined}
use billing_simulator.Clock.{Meets, VirtualClock, now, set_time, advance, new_virtual_clock}
use billing_simulator.Clock.Laws.{Near, calls, set_time-now, advance-outcome}
use billing_simulator.Examples.Data.{price, subscription, database, meets, marshal}

abbrev quiet : Meets
quiet = record { real = 1000; load = none; save = none; publish = none }

abbrev clock : VirtualClock
clock = record {
  offset = pos 50;
  has_store = true;
  redis = record { saved = none; published = [] };
  listeners = 4 ∷ 7 ∷ [];
  notified = [];
}

set_time-now_example :
    (now 1600 (set_time quiet 5000 clock).1 ≡ 5000 + (1600 - 1000))
    × ((fresh : VirtualClock) × (new_virtual_clock quiet true (set_time quiet 5000 clock).1.redis
          ≡ returns fresh)
        × (now 1600 fresh ≡ 5000 + (1600 - 1000)))
unfolding Near set_time
set_time-now_example =
    set_time-now quiet quiet 5000 1600 clock (omega arith, omega arith) (omega arith) refl refl refl

advance-outcome_example :
    let c' = (advance quiet (pos 200) clock).1 in
    (c'.offset ≡ add_64 (pos 50) (pos 200))
    × (((advance quiet (pos 200) clock).0 ≡ none)
        × (c'.notified ≡ [] ++ calls (now 1000 clock) (now 1000 c') (4 ∷ 7 ∷ []))
        × (c'.redis.saved ≡ some c'.offset))
advance-outcome_example = advance-outcome quiet (pos 200) clock

-- The customer of the subscription
abbrev customer : Customer
customer = record {
  id = 1;
  public_id = "cus_1";
  email = "a@example.com";
  name = "";
  deleted_at = none;
  created_at = 100;
  updated_at = 100;
  root = no_events;
}

abbrev with_customer : Database
with_customer = record database { customers = customer ∷ [] }

create_subscription_body-Created_example :
    Ensures (create_subscription_body raise_event marshal (meets true) 1 40 with_customer) (λ r.
      Created 1 40 (pos 500) (135 * day) (next_billing_date price (135 * day)) with_customer r.1)
unfolding Customers.get_by_id Prices.get_by_id
create_subscription_body-Created_example =
    create_subscription_body-Created marshal (meets true) 1 40 with_customer customer price _ _
      (λ dto. refl) (λ k. refl) refl refl refl refl

renew_subscription_body-once_example :
    Ensures (renew_subscription_body raise_event marshal (meets true) none 10 database) (λ r.
      renew_subscription_body raise_event marshal (meets false) none 10 r.1 ≡ returns (none, r.1))
unfolding Subscriptions.get_by_id Prices.get_by_id next_billing_date next_date
renew_subscription_body-once_example =
    renew_subscription_body-once marshal (meets true) (meets false) none none 10 database
      subscription price _ (λ k. refl) refl refl refl (λ e. cc) (λ e. cc) (omega arith)
      (omega arith) (omega arith) (omega arith) (λ t. omega (arith, add_date_days t 30)) refl refl
      refl

get_active_for_renewal-declined_example :
    Ensures (renew_subscription_body raise_event marshal (meets false) none 10 database) (λ r.
      Ensures
        (get_active_for_renewal (900 * day) none r.1.subscriptions)
        (All (λ t. (t.id == 10) ≡ false)))
unfolding Subscriptions.get_by_id Prices.get_by_id simulate_payment is_paid
get_active_for_renewal-declined_example =
    get_active_for_renewal-declined marshal (meets false) none 10 database subscription price _
      (900 * day) (λ k. refl) refl refl refl (λ e. cc) (λ e. cc) (omega arith) (omega arith)
      (omega arith) refl

-- No key is set.
abbrev no_keys : Keys
no_keys k = none

abbrev started : Locks memory "renewal"
started = record { store = no_keys; owners = []; past = [] }

-- Caller 8 takes the lock, its time passes, and caller 9 takes it.
abbrev taken_over : Locks memory "renewal"
taken_over = record {
  store =
      (lock memory "renewal" 9 none
        (memory.del (lock_key memory "renewal") (lock memory "renewal" 8 none no_keys).1)).1;
  owners = 9 ∷ [];
  past = 8 ∷ [];
}

run : Reach memory "renewal" started taken_over
unfolding lock
run = next (next (next stay (acquire refl tt)) expire) (acquire refl (refl, tt))

lock-exclusion_example :
    (length taken_over.owners ≤ 1)
    × (taken_over.owners
        ≡ as_list memory "renewal" (memory.get (lock_key memory "renewal") taken_over.store))
    × All (λ v. unlock memory "renewal" v none taken_over.store ≡ taken_over.store) (8 ∷ [])
lock-exclusion_example = lock-exclusion memory "renewal" memory-IsLawful no_keys taken_over refl run
