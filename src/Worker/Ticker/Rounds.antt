-- ===== src/Worker/Ticker/Rounds.antt =====
-- internal/worker: the workers' Start, over their rounds.
use billing_simulator.Base.{ℕ, suc, String, Option, List, [], ◌∷◌, ◌++◌, Time, map}
use billing_simulator.Entity.Errors.{Outcome, returns, fails, panics, overflows, Error}
use billing_simulator.Entity.Events.{Uuid}
use billing_simulator.Entity.Aggregate.{Raise}
use billing_simulator.Entity.Invoice.{Invoice}
use billing_simulator.Entity.Subscription.{Subscription}
use billing_simulator.Repository.Database.{Database}
use billing_simulator.Repository.Subscriptions.{get_active_for_renewal}
use billing_simulator.Platform.Transaction.{Config, Weather}
use billing_simulator.Service.Call.{Meets}
use billing_simulator.Service.EventDispatcher.{Dto}
use billing_simulator.Worker.Ticker.{
  Signal, context_done, stop_requested, tick, Progress, after_round, run_ticks,
}
use billing_simulator.Worker.SubscriptionRenewal.{process_renewals, renew_selected}
use billing_simulator.Worker.SubscriptionRenewal.Batch.{
  Renewals, finished, left_out, renewed, renew_each-Renewals,
}

-- What a round of the renewal worker meets.
pub record Round : Type 0 where
  pub at : Time
  pub failure : Option Error
  pub weather : ℕ → ℕ → Weather
  pub meets : ℕ → ℕ → Meets
  pub held : ℕ → ℕ → Option Invoice

module _ (raise : Raise) (marshal : Dto → Option String) (c : Config) where
  renewal_round : Round → Database → Outcome (Unit {0}) × Database
  unfolding process_renewals
  renewal_round r = process_renewals raise marshal c r.weather r.meets r.held r.at r.failure

  -- `Start` of SubscriptionRenewalWorker
  unfoldable pub start_renewals : (ℕ → Round) → List Signal → Database → Progress × Database
  unfolding renewal_round run_ticks
  start_renewals rounds = run_ticks (λ n. renewal_round (rounds n)) 0

  -- The renewals of one list, and then those of another.
  skip_all :
      (ids : List Uuid) {more : List Uuid} {a b : Database}
      → Renewals raise marshal more a b
      → Renewals raise marshal (ids ++ more) a b
  skip_all [] r = r
  skip_all (id ∷ ids) r = left_out (skip_all ids r)

  and_then :
      {ids more : List Uuid} {a b d : Database}
      → Renewals raise marshal ids a b
      → Renewals raise marshal more b d
      → Renewals raise marshal (ids ++ more) a d
  and_then {ids} finished s = skip_all ids s
  and_then (left_out r) s = left_out (and_then r s)
  and_then (renewed db' held result m e r) s = renewed db' held result m e (and_then r s)

  -- Some sequence of whole renewals leads from the one state of the tables to the other.
  abbrev pub RenewalsOf : Database → Database → Type 0
  RenewalsOf a b = (ids : List Uuid) × Renewals raise marshal ids a b

  round_renews : (r : Round) (db : Database) → RenewalsOf db (renewal_round r db).1
  unfolding renewal_round process_renewals renew_selected
  round_renews r db = selected (get_active_for_renewal r.at r.failure db.subscriptions)
    where
      selected :
          (o : Outcome (List Subscription))
          → RenewalsOf db (renew_selected raise marshal c r.weather r.meets r.held o db).1
      selected (returns subs) = (
        map (λ s. s.id) subs,
        renew_each-Renewals raise marshal c r.weather r.meets r.held 0 subs db,
      )
      selected (fails e) = ([], finished)
      selected panics = ([], finished)
      selected overflows = ([], finished)

  then_renews :
      (db : Database) (r : Outcome (Unit {0}) × Database) (rest : Database → Progress × Database)
      → RenewalsOf db r.1
      → ((s : Database) → RenewalsOf s (rest s).1)
      → RenewalsOf db (after_round r rest).1
  unfolding after_round
  then_renews db (returns a, s) rest (ids, h) k = let (more, l) = k s in (ids ++ more, and_then h l)
  then_renews db (fails e, s) rest (ids, h) k = let (more, l) = k s in (ids ++ more, and_then h l)
  then_renews db (panics, s) rest h k = h
  then_renews db (overflows, s) rest h k = h

  rounds_renew :
      (rounds : ℕ → Round) (n : ℕ) (signals : List Signal) (db : Database)
      → RenewalsOf db (run_ticks (λ k. renewal_round (rounds k)) n signals db).1
  unfolding run_ticks
  rounds_renew rounds n [] db = ([], finished)
  rounds_renew rounds n (context_done ∷ signals) db = ([], finished)
  rounds_renew rounds n (stop_requested ∷ signals) db = ([], finished)
  rounds_renew rounds n (tick ∷ signals) db =
      then_renews db (renewal_round (rounds n) db) _ (round_renews (rounds n) db)
        λ s. rounds_renew rounds (suc n) signals s

  -- Whatever the select of SubscriptionRenewalWorker finds, in whatever order, and whatever each of
  -- its rounds meets: the tables are left as a sequence of whole renewals leaves them, in all its
  -- rounds together; no renewal is left half done.
  pub start_renewals-Renewals :
      (rounds : ℕ → Round) (signals : List Signal) (db : Database)
      → RenewalsOf db (start_renewals rounds signals db).1
  unfolding start_renewals
  start_renewals-Renewals rounds signals db = rounds_renew rounds 0 signals db
