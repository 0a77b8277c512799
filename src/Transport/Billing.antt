-- ===== src/Transport/Billing.antt =====
-- internal/transport/http/handlers.go and facade.go: the handlers of BillingHandler that make
-- customers and subscriptions, over the services that BillingFacade joins.
use billing_simulator.Base.{
  ℕ, ◌≡◌, refl, String, true, false, ◌&&◌, any, Option, none, some, str_eq,
}
use billing_simulator.Entity.Errors.{
  Outcome, returns, fails, panics, overflows, Error, price_not_found,
}
use billing_simulator.Entity.Aggregate.{Raise}
use billing_simulator.Entity.Customer.{Customer}
use billing_simulator.Entity.Subscription.{Subscription}
use billing_simulator.Repository.Table.{is_live, find_first-missing}
use billing_simulator.Repository.Customers
use billing_simulator.Repository.Prices
use billing_simulator.Repository.Database.{Database}
use billing_simulator.Platform.Transaction.{Config, Weather}
use billing_simulator.Service.Call.{Meets}
use billing_simulator.Service.EventDispatcher.{Dto}
use billing_simulator.Service.Customers as CustomerService
use billing_simulator.Service.Prices as PriceService
use billing_simulator.Service.Billing
use billing_simulator.Transport.Response.{Response, replied, refused, answer, handle_service_error}

unfoldable pub reply : {A D : Type 0} → Outcome A × D → Option (Response A) × D
unfolding answer handle_service_error
reply (r, d) = (answer handle_service_error r (λ a. some (replied 201 a)), d)

-- An error before anything is written ends the call.
unfoldable pub resolve : {A B D : Type 0} → Outcome A → D → (A → Outcome B × D) → Outcome B × D
resolve (returns a) d rest = rest a
resolve (fails e) d rest = (fails e, d)
resolve panics d rest = (panics, d)
resolve overflows d rest = (overflows, d)

module _ (raise : Raise) (marshal : Dto → Option String) (c : Config) (weather : ℕ → Weather)
    (m : ℕ → Meets) where
  -- `CreateCustomer`, for the email of the request
  unfoldable pub create_customer : Option String → Database → Option (Response Customer) × Database
  unfolding reply CustomerService.create_customer
  create_customer none db = (some (refused 400 "invalid_request" true), db)
  create_customer (some email) db =
      reply (CustomerService.create_customer raise marshal c weather m email db)

  -- `CreateSubscription` of BillingFacade, with the errors of its two SELECTs
  unfoldable pub resolve_and_create :
      String → String → Option Error → Option Error → Database → Outcome Subscription × Database
  unfolding resolve CustomerService.get_customer PriceService.get_price_by_public_id
      Billing.create_subscription
  resolve_and_create customer_id price_id fault fault' db =
      resolve (CustomerService.get_customer customer_id fault db.customers) db λ customer.
        resolve (PriceService.get_price_by_public_id price_id fault' db.prices) db
          λ price. Billing.create_subscription raise marshal c weather m customer.id price.id db

  -- `CreateSubscription` of BillingHandler, for the two identifiers of the request
  unfoldable pub create_subscription :
      Option (String × String)
      → Option Error
      → Option Error
      → Database
      → Option (Response Subscription) × Database
  unfolding reply resolve_and_create
  create_subscription none fault fault' db = (some (refused 400 "invalid_request" true), db)
  create_subscription (some (customer_id, price_id)) fault fault' db =
      reply (resolve_and_create customer_id price_id fault fault' db)

  -- POST /v1/subscriptions, for a customer that is found and a price of which no live row has the
  -- public identifier, answers 500, as for an internal error, and writes nothing.
  pub create_subscription-missing_price :
      (customer_id price_id : String) (customer : Customer) (db : Database)
      → Customers.get_by_public_id customer_id none db.customers ≡ returns customer
      → any (λ x. str_eq x.public_id price_id && is_live x.deleted_at) db.prices ≡ false
      → create_subscription (some (customer_id, price_id)) none none db
        ≡ (some (refused 500 "internal_error" false), db)
  unfolding create_subscription
  create_subscription-missing_price customer_id price_id customer db found h =
      rw
        (
          create_subscription,
          resolve_and_create,
          CustomerService.get_customer,
          found,
          resolve,
          PriceService.get_price_by_public_id,
          Prices.get_by_public_id,
          find_first-missing price_not_found
              (λ x. str_eq x.public_id price_id && is_live x.deleted_at) Prices.scan_row db.prices
              h,
          resolve,
          reply,
          answer,
          handle_service_error,
        )
        refl
