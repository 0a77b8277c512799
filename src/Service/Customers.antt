-- ===== src/Service/Customers.antt =====
-- internal/service/customer.go
use billing_simulator.Base.{ℕ, String, Option, List}
use billing_simulator.Entity.Errors.{Outcome, returns, Error, ◌>>=◌}
use billing_simulator.Entity.Aggregate.{Raise, no_events}
use billing_simulator.Entity.Customer.{Customer, new_customer}
use billing_simulator.Repository.Customers
use billing_simulator.Repository.Database.{Database}
use billing_simulator.Platform.Transaction.{Config, Weather, execute_in_transaction}
use billing_simulator.Service.Call.{Meets}
use billing_simulator.Service.EventDispatcher.{Dto, dispatch}

module _ (raise : Raise) (marshal : Dto → Option String) where
  -- The function that `CreateCustomer` runs in its transaction. Dispatching no events does nothing,
  -- so the test for them has no effect.
  unfoldable pub create_customer_body : Meets → String → Database → Outcome (Customer × Database)
  unfolding new_customer Customers.create dispatch
  create_customer_body m email db = do
    customer ← new_customer raise (m.draw 0) email "" (m.clock 0)
    customers ← Customers.create customer (m.fault 0) db.customers
    outbox ← dispatch marshal m 1 customer.root.domain_events (m.fault 1) db.outbox
    returns
        (record customer { root = no_events }, record db { customers = customers; outbox = outbox })

  -- `CreateCustomer`
  unfoldable pub create_customer :
      Config → (ℕ → Weather) → (ℕ → Meets) → String → Database → Outcome Customer × Database
  unfolding create_customer_body execute_in_transaction
  create_customer c weather m email =
      execute_in_transaction c weather λ i. create_customer_body (m i) email

-- `GetCustomer`
unfoldable pub get_customer : String → Option Error → List Customer → Outcome Customer
unfolding Customers.get_by_public_id
get_customer = Customers.get_by_public_id
