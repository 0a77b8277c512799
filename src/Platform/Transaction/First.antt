-- ===== src/Platform/Transaction/First.antt =====
-- ExecuteInTransaction of pkg/storage/postgres/transaction, where its first attempt succeeds.
use billing_simulator.Base.{ℕ, suc, ◌≡◌, refl, none}
use billing_simulator.Entity.Errors.{Outcome, returns}
use billing_simulator.Platform.Transaction.{
  Config, Weather, accepted, finish, do_transaction, attempts, execute_in_transaction,
}

-- Where the first attempt begins, the function returns, and the commit succeeds, the call returns
-- what the function does, and leaves its state.
pub execute_in_transaction-first :
    {D A : Type 0} (c : Config) (weather : ℕ → Weather) (fn : ℕ → D → Outcome (A × D)) (k : ℕ)
    (db db' : D) (a : A)
    → c.max_attempts ≡ suc k
    → (weather 1).begin ≡ none
    → (weather 1).commit ≡ accepted
    → fn 1 db ≡ returns (a, db')
    → execute_in_transaction c weather fn db ≡ (returns a, db')
unfolding execute_in_transaction
execute_in_transaction-first c weather fn k db db' a some_attempt begun committed done =
    rw (some_attempt, attempts, do_transaction, begun, done, finish, committed) refl
