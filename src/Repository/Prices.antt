-- ===== src/Repository/Prices.antt =====
-- internal/repository/price.go
use billing_simulator.Base.{
  some, String, Time, ℕ, str_eq, take, drop, false, Bool, ◌&&◌, Option, none, List, ◌==◌,
}
use billing_simulator.Entity.Errors.{Outcome, Error, price_not_found}
use billing_simulator.Entity.Events.{Uuid}
use billing_simulator.Entity.Aggregate.{no_events}
use billing_simulator.Repository.Table.{
  find_all, update_or, update_where, sort_by, sort_desc, is_live, insert, find_first,
}
use billing_simulator.Entity.Price.{Price}

-- The columns of a row; what the table has no column for is left at its zero value.
unfoldable pub scan_row : Price → Price
scan_row x = record x { deleted_at = none; root = no_events }

abbrev pub has_id : Uuid → Price → Bool
has_id id x = x.id == id && is_live x.deleted_at

-- `Create`
unfoldable pub create : Price → Option Error → List Price → Outcome (List Price)
unfolding scan_row insert
create = insert scan_row

-- `GetByID`
unfoldable pub get_by_id : Uuid → Option Error → List Price → Outcome Price
unfolding scan_row find_first
get_by_id id = find_first price_not_found (has_id id) scan_row

-- `GetByPublicID`
unfoldable pub get_by_public_id : String → Option Error → List Price → Outcome Price
unfolding scan_row find_first
get_by_public_id id =
    find_first price_not_found (λ x. str_eq x.public_id id && is_live x.deleted_at) scan_row

-- `GetByProductID`
unfoldable pub get_by_product_id : Uuid → Option Error → List Price → Outcome (List Price)
unfolding scan_row find_all sort_desc
get_by_product_id product =
    find_all (λ x. x.product_id == product && is_live x.deleted_at)
      (λ rows. sort_desc (λ x. x.created_at) rows) scan_row

-- `List`, of a page
unfoldable pub list_page : ℕ → ℕ → Option Error → List Price → Outcome (List Price)
unfolding scan_row find_all sort_by
list_page limit offset =
    find_all (λ x. is_live x.deleted_at)
      (λ rows. take limit (drop offset (sort_by (λ x. x.created_at) rows))) scan_row

-- The columns that `Update` sets, from the value given.
unfoldable pub set_columns : Price → Price → Price
set_columns x row = record row {
  amount = x.amount;
  currency = x.currency;
  interval = x.interval;
  interval_count = x.interval_count;
  active = x.active;
  updated_at = x.updated_at;
}

-- `Update`
unfoldable pub update : Price → Option Error → List Price → Outcome (List Price)
unfolding set_columns update_or update_where
update x = update_or price_not_found (λ row. row.id == x.id) (set_columns x)

-- `SoftDelete`, at the time that `NOW()` has in the database
unfoldable pub soft_delete : Time → Uuid → Option Error → List Price → Outcome (List Price)
unfolding update_or update_where
soft_delete at id =
    update_or price_not_found (has_id id)
      (λ row. record row { deleted_at = some at; active = false })
