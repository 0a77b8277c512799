-- ===== src/Entity/Customer.antt =====
-- internal/entity/customer.go.
use billing_simulator.Base.{String, Option, none, Time, str_eq, if◌then◌else◌}
use billing_simulator.Entity.Errors.{Outcome, returns, ◌>>=◌}
use billing_simulator.Entity.Events.{Uuid, customer_was_created, customer_was_updated}
use billing_simulator.Entity.Aggregate.{AggregateRoot, Raise, no_events, Draw, generate_public_id}

-- Phone and Metadata are never set but to their zero values.
pub record Customer : Type 0 where
  pub id : Uuid
  pub public_id : String
  pub email : String
  pub name : String
  pub deleted_at : Option Time
  pub created_at : Time
  pub updated_at : Time
  pub root : AggregateRoot

module _ (raise : Raise) where
  -- `NewCustomer`
  unfoldable pub new_customer : Draw → String → String → Time → Outcome Customer
  unfolding generate_public_id
  new_customer d email name now = do
    public ← generate_public_id "cus" d
    r ← raise no_events (
        customer_was_created (record {
          customer_id = d.uuid;
          customer_public_id = public;
          email = email;
          name = name;
          at = now;
        }))
    returns (record {
      id = d.uuid;
      public_id = public;
      email = email;
      name = name;
      deleted_at = none;
      created_at = now;
      updated_at = now;
      root = r;
    })

  -- The event that both updates raise, of the customer as it is now.
  raise_updated : Customer → Time → Outcome Customer
  raise_updated c now = do
    r ← raise c.root (
        customer_was_updated (record {
          customer_id = c.id;
          customer_public_id = c.public_id;
          email = c.email;
          name = c.name;
          at = now;
        }))
    returns (record c { root = r })

  -- `UpdateEmail`
  unfoldable pub update_email : Customer → String → Time → Outcome Customer
  unfolding raise_updated
  update_email c email now =
      if str_eq c.email email
      then returns c
      else raise_updated (record c { email = email; updated_at = now }) now

  -- `UpdateName`
  unfoldable pub update_name : Customer → String → Time → Outcome Customer
  unfolding raise_updated
  update_name c name now =
      if str_eq c.name name
      then returns c
      else raise_updated (record c { name = name; updated_at = now }) now
