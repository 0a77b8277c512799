-- ===== src/Entity/Product.antt =====
-- internal/entity/product.go.
use billing_simulator.Base.{
  String, Bool, true, ◌&&◌, Option, none, Time, str_eq, same_bool, if◌then◌else◌,
}
use billing_simulator.Entity.Errors.{Outcome, returns, ◌>>=◌}
use billing_simulator.Entity.Events.{Uuid, product_was_created, product_was_updated}
use billing_simulator.Entity.Aggregate.{AggregateRoot, Raise, no_events, Draw, generate_public_id}

pub record Product : Type 0 where
  pub id : Uuid
  pub public_id : String
  pub name : String
  pub description : String
  pub active : Bool
  pub deleted_at : Option Time
  pub created_at : Time
  pub updated_at : Time
  pub root : AggregateRoot

module _ (raise : Raise) where
  -- `NewProduct`
  unfoldable pub new_product : Draw → String → String → Time → Outcome Product
  unfolding generate_public_id
  new_product d name description now = do
    public ← generate_public_id "prod" d
    r ← raise no_events (
        product_was_created (record {
          product_id = d.uuid;
          product_public_id = public;
          name = name;
          description = description;
          created_at = now;
        }))
    returns (record {
      id = d.uuid;
      public_id = public;
      name = name;
      description = description;
      active = true;
      deleted_at = none;
      created_at = now;
      updated_at = now;
      root = r;
    })

  -- `Update`
  unfoldable pub update_product : Product → String → String → Bool → Time → Outcome Product
  update_product p name description active now =
      if str_eq p.name name && (str_eq p.description description && same_bool p.active active)
      then returns p
      else (do
        r ← raise p.root (
            product_was_updated (record {
              product_id = p.id;
              product_public_id = p.public_id;
              name = name;
              description = description;
              active = active;
              updated_at = now;
            }))
        returns (record p {
          name = name;
          description = description;
          active = active;
          updated_at = now;
          root = r;
        }))
