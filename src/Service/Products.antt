-- ===== src/Service/Products.antt =====
-- internal/service/product.go
use billing_simulator.Base.{ℕ, String, Option, List, Time}
use billing_simulator.Entity.Errors.{Outcome, returns, Error, ◌>>=◌}
use billing_simulator.Entity.Events.{Uuid}
use billing_simulator.Entity.Aggregate.{Raise}
use billing_simulator.Entity.Product.{Product, new_product}
use billing_simulator.Repository.Products
use billing_simulator.Platform.Transaction.{Config, Weather, execute_in_transaction}
use billing_simulator.Service.Call.{Meets}

module _ (raise : Raise) where
  -- The function that `CreateProduct` runs in its transaction.
  unfoldable pub create_product_body :
      Meets → String → String → List Product → Outcome (Product × List Product)
  unfolding new_product Products.create
  create_product_body m name description rows = do
    product ← new_product raise (m.draw 0) name description (m.clock 0)
    rows' ← Products.create product (m.fault 0) rows
    returns (product, rows')

  -- `CreateProduct`
  unfoldable pub create_product :
      Config
      → (ℕ → Weather)
      → (ℕ → Meets)
      → String
      → String
      → List Product
      → Outcome Product × List Product
  unfolding create_product_body execute_in_transaction
  create_product c weather m name description =
      execute_in_transaction c weather λ i. create_product_body (m i) name description

-- `GetProduct`
unfoldable pub get_product : String → Option Error → List Product → Outcome Product
unfolding Products.get_by_public_id
get_product = Products.get_by_public_id

-- `ListProducts`
unfoldable pub list_products : ℕ → ℕ → Option Error → List Product → Outcome (List Product)
unfolding Products.list_page
list_products = Products.list_page

-- `DeleteProduct`
unfoldable pub delete_product : Time → Uuid → Option Error → List Product → Outcome (List Product)
unfolding Products.soft_delete
delete_product = Products.soft_delete
