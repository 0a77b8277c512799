-- ===== src/Entity/Price.antt =====
-- internal/entity/price.go: a price and its billing interval.
use billing_simulator.Base.{
  ◌*◌, ◌+◌, String, Bool, true, ◌&&◌, Option, none, ℤ, pos, negsuc, wrap, leb_ℤ, eqb_ℤ, same_bool,
  Time, add_date, if◌then◌else◌,
}
use billing_simulator.Entity.Errors.{Outcome, returns, ◌>>=◌}
use billing_simulator.Entity.Status.{BillingInterval, day, week, month, year, other_interval}
use billing_simulator.Entity.Events.{Uuid, price_was_created, price_was_updated}
use billing_simulator.Entity.Aggregate.{AggregateRoot, Raise, no_events, Draw, generate_public_id}

pub record Price : Type 0 where
  pub id : Uuid
  pub public_id : String
  pub product_id : Uuid
  pub amount : ℤ
  pub currency : String
  pub interval : BillingInterval
  pub interval_count : ℤ
  pub active : Bool
  pub deleted_at : Option Time
  pub created_at : Time
  pub updated_at : Time
  pub root : AggregateRoot

-- `7*count`, an int
times_7 : ℤ → ℤ
times_7 (pos n) = wrap (pos (7 * n))
times_7 (negsuc n) = wrap (negsuc (7 * n + 6))

-- `NextBillingDate`, by the interval and its count
unfoldable pub next_date : BillingInterval → ℤ → Time → Time
unfolding times_7
next_date day count t = add_date t (pos 0) (pos 0) count
next_date week count t = add_date t (pos 0) (pos 0) (times_7 count)
next_date month count t = add_date t (pos 0) count (pos 0)
next_date year count t = add_date t count (pos 0) (pos 0)
next_date other_interval count t = add_date t (pos 0) count (pos 0)

unfoldable pub next_billing_date : Price → Time → Time
next_billing_date p t = next_date p.interval p.interval_count t

-- `if intervalCount <= 0 { intervalCount = 1 }`
abbrev pub at_least_one : ℤ → ℤ
at_least_one n = if leb_ℤ n (pos 0) then pos 1 else n

module _ (raise : Raise) where
  -- `NewPrice`
  unfoldable pub new_price : Draw → Uuid → ℤ → String → BillingInterval → ℤ → Time → Outcome Price
  unfolding generate_public_id
  new_price d product amount currency interval interval_count now = do
    public ← generate_public_id "price" d
    r ← raise no_events (
        price_was_created (record {
          price_id = d.uuid;
          price_public_id = public;
          product_id = product;
          amount = amount;
          currency = currency;
          interval = interval;
          interval_count = at_least_one interval_count;
          created_at = now;
        }))
    returns (record {
      id = d.uuid;
      public_id = public;
      product_id = product;
      amount = amount;
      currency = currency;
      interval = interval;
      interval_count = at_least_one interval_count;
      active = true;
      deleted_at = none;
      created_at = now;
      updated_at = now;
      root = r;
    })

  -- `Update`
  unfoldable pub update_price : Price → ℤ → Bool → Time → Outcome Price
  update_price p amount active now =
      if eqb_ℤ p.amount amount && same_bool p.active active then returns p else (do
        r ← raise p.root (
            price_was_updated (record {
              price_id = p.id;
              price_public_id = p.public_id;
              product_id = p.product_id;
              amount = amount;
              currency = p.currency;
              interval = p.interval;
              interval_count = p.interval_count;
              active = active;
              updated_at = now;
            }))
        returns (record p { amount = amount; active = active; updated_at = now; root = r }))
