-- ===== src/Repository/Products.antt =====
-- internal/repository/product.go
use billing_simulator.Base.{
  ℕ, String, Bool, false, ◌&&◌, Option, none, some, List, Time, ◌==◌, str_eq, take, drop,
}
use billing_simulator.Entity.Errors.{Outcome, Error, product_not_found}
use billing_simulator.Entity.Events.{Uuid}
use billing_simulator.Entity.Aggregate.{no_events}
use billing_simulator.Repository.Table.{
  timestamp, is_live, insert, find_first, find_all, update_or, update_where, sort_desc,
}
use billing_simulator.Entity.Product.{Product}

-- The columns of a row; what the table has no column for is left at its zero value.
unfoldable pub scan_row : Product → Product
scan_row x = record x { deleted_at = none; root = no_events }

abbrev pub has_id : Uuid → Product → Bool
has_id id x = x.id == id && is_live x.deleted_at

-- The row that `Create` stores
unfoldable pub stored_row : Product → Product
unfolding scan_row
stored_row x = record (scan_row x) {
  created_at = timestamp x.created_at;
  updated_at = timestamp x.updated_at;
}

-- `Create`
unfoldable pub create : Product → Option Error → List Product → Outcome (List Product)
unfolding stored_row insert
create = insert stored_row

-- `GetByID`
unfoldable pub get_by_id : Uuid → Option Error → List Product → Outcome Product
unfolding scan_row find_first
get_by_id id = find_first product_not_found (has_id id) scan_row

-- `GetByPublicID`
unfoldable pub get_by_public_id : String → Option Error → List Product → Outcome Product
unfolding scan_row find_first
get_by_public_id id =
    find_first product_not_found (λ x. str_eq x.public_id id && is_live x.deleted_at) scan_row

-- `List`, of a page
unfoldable pub list_page : ℕ → ℕ → Option Error → List Product → Outcome (List Product)
unfolding scan_row find_all sort_desc
list_page limit offset =
    find_all (λ x. is_live x.deleted_at)
      (λ rows. take limit (drop offset (sort_desc (λ x. x.created_at) rows))) scan_row

-- The columns that `Update` sets, from the value given.
unfoldable pub set_columns : Product → Product → Product
set_columns x row = record row {
  name = x.name;
  description = x.description;
  active = x.active;
  updated_at = timestamp x.updated_at;
}

-- `Update`
unfoldable pub update : Product → Option Error → List Product → Outcome (List Product)
unfolding set_columns update_or update_where
update x = update_or product_not_found (λ row. row.id == x.id) (set_columns x)

-- `SoftDelete`, at the time that `NOW()` has in the database
unfoldable pub soft_delete : Time → Uuid → Option Error → List Product → Outcome (List Product)
unfolding update_or update_where
soft_delete at id =
    update_or product_not_found (has_id id)
      (λ row. record row { deleted_at = some at; active = false })
