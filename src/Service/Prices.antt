-- ===== src/Service/Prices.antt =====
-- internal/service/price.go. `GetPriceByPublicID`, which internal/transport/http calls, is not in
-- it: here it is the one that facade.go there asks for.
use billing_simulator.Base.{ℕ, String, Option, List, Time, ℤ}
use billing_simulator.Entity.Errors.{Outcome, returns, Error, ◌>>=◌}
use billing_simulator.Entity.Events.{Uuid}
use billing_simulator.Entity.Status.{BillingInterval}
use billing_simulator.Entity.Aggregate.{Raise}
use billing_simulator.Entity.Price.{Price, new_price}
use billing_simulator.Repository.Prices
use billing_simulator.Platform.Transaction.{Config, Weather, execute_in_transaction}
use billing_simulator.Service.Call.{Meets}

module _ (raise : Raise) where
  -- The function that `CreatePrice` runs in its transaction.
  unfoldable pub create_price_body :
      Meets → Uuid → ℤ → String → BillingInterval → ℤ → List Price → Outcome (Price × List Price)
  unfolding new_price Prices.create
  create_price_body m product amount currency interval interval_count rows = do
    price ← new_price raise (m.draw 0) product amount currency interval interval_count (m.clock 0)
    rows' ← Prices.create price (m.fault 0) rows
    returns (price, rows')

  -- `CreatePrice`
  unfoldable pub create_price :
      Config
      → (ℕ → Weather)
      → (ℕ → Meets)
      → Uuid
      → ℤ
      → String
      → BillingInterval
      → ℤ
      → List Price
      → Outcome Price × List Price
  unfolding create_price_body execute_in_transaction
  create_price c weather m product amount currency interval interval_count =
      execute_in_transaction c weather
        λ i. create_price_body (m i) product amount currency interval interval_count

-- `GetPrice`
unfoldable pub get_price : Uuid → Option Error → List Price → Outcome Price
unfolding Prices.get_by_id
get_price = Prices.get_by_id

-- `GetPriceByPublicID`
unfoldable pub get_price_by_public_id : String → Option Error → List Price → Outcome Price
unfolding Prices.get_by_public_id
get_price_by_public_id = Prices.get_by_public_id

-- `ListPrices`
unfoldable pub list_prices : ℕ → ℕ → Option Error → List Price → Outcome (List Price)
unfolding Prices.list_page
list_prices = Prices.list_page

-- `DeletePrice`
unfoldable pub delete_price : Time → Uuid → Option Error → List Price → Outcome (List Price)
unfolding Prices.soft_delete
delete_price = Prices.soft_delete
