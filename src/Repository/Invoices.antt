-- ===== src/Repository/Invoices.antt =====
-- internal/repository/invoice.go
use billing_simulator.Base.{
  some, Time, ℕ, ◌+◌, ltb, take, false, String, Bool, ◌&&◌, Option, none, List, ◌==◌, str_eq,
}
use billing_simulator.Entity.Errors.{Outcome, Error, invoice_not_found}
use billing_simulator.Entity.Status.{InvoiceStatus, open_, same_status}
use billing_simulator.Entity.Events.{Uuid}
use billing_simulator.Entity.Aggregate.{no_events}
use billing_simulator.Repository.Table.{
  equals_number, find_all, sort_by, sort_desc, is_live, insert, find_first, update_or, update_where,
}
use billing_simulator.Entity.Invoice.{Invoice}

-- The columns of a row; what the table has no column for is left at its zero value.
unfoldable pub scan_row : Invoice → Invoice
scan_row x = record x {
  subscription_public_id = none;
  customer_public_id = "";
  deleted_at = none;
  root = no_events;
}

abbrev pub has_id : Uuid → Invoice → Bool
has_id id x = x.id == id && is_live x.deleted_at

-- `Create`
unfoldable pub create : Invoice → Option Error → List Invoice → Outcome (List Invoice)
unfolding scan_row insert
create = insert scan_row

-- `GetByID`
unfoldable pub get_by_id : Uuid → Option Error → List Invoice → Outcome Invoice
unfolding scan_row find_first
get_by_id id = find_first invoice_not_found (has_id id) scan_row

-- `GetByPublicID`
unfoldable pub get_by_public_id : String → Option Error → List Invoice → Outcome Invoice
unfolding scan_row find_first
get_by_public_id id =
    find_first invoice_not_found (λ x. str_eq x.public_id id && is_live x.deleted_at) scan_row

-- The columns that `Update` sets, from the value given.
unfoldable pub set_columns : Invoice → Invoice → Invoice
set_columns x row = record row {
  status = x.status;
  amount_paid = x.amount_paid;
  amount_remaining = x.amount_remaining;
  attempt_count = x.attempt_count;
  attempted_at = x.attempted_at;
  updated_at = x.updated_at;
}

-- `Update`
unfoldable pub update : Invoice → Option Error → List Invoice → Outcome (List Invoice)
unfolding set_columns update_or update_where
update x = update_or invoice_not_found (λ row. row.id == x.id) (set_columns x)

-- `GetByCustomerID`
unfoldable pub get_by_customer_id : Uuid → Option Error → List Invoice → Outcome (List Invoice)
unfolding scan_row find_all sort_desc
get_by_customer_id customer =
    find_all (λ x. x.customer_id == customer && is_live x.deleted_at)
      (λ rows. sort_desc (λ x. x.created_at) rows) scan_row

-- `GetBySubscriptionID`
unfoldable pub get_by_subscription_id : Uuid → Option Error → List Invoice → Outcome (List Invoice)
unfolding scan_row find_all sort_desc equals_number
get_by_subscription_id subscription =
    find_all (λ x. equals_number subscription x.subscription_id && is_live x.deleted_at)
      (λ rows. sort_desc (λ x. x.created_at) rows) scan_row

-- `GetByStatus`
unfoldable pub get_by_status :
    InvoiceStatus → ℕ → Option Error → List Invoice → Outcome (List Invoice)
unfolding scan_row find_all sort_by same_status
get_by_status status limit =
    find_all (λ x. same_status x.status status && is_live x.deleted_at)
      (λ rows. take limit (sort_by (λ x. x.created_at) rows)) scan_row

-- `due_date < before`, which NULL is not
unfoldable pub is_before : Time → Option Time → Bool
is_before before none = false
is_before before (some due) = ltb due before

-- A due date, of which GetOverdue has only rows with one.
unfoldable pub due_or_zero : Option Time → Time
due_or_zero none = 0
due_or_zero (some due) = due

-- `GetOverdue`
unfoldable pub get_overdue : Time → ℕ → Option Error → List Invoice → Outcome (List Invoice)
unfolding scan_row find_all sort_by same_status is_before due_or_zero
get_overdue before limit =
    find_all
      (λ x. same_status x.status open_ && (is_before before x.due_date && is_live x.deleted_at))
      (λ rows. take limit (sort_by (λ x. due_or_zero x.due_date) rows)) scan_row

-- `UpdateStatus`, at the time that `NOW()` has in the database
unfoldable pub update_status :
    Time → Uuid → InvoiceStatus → Option Error → List Invoice → Outcome (List Invoice)
unfolding update_or update_where
update_status at id status =
    update_or invoice_not_found (λ row. row.id == id)
      λ row. record row { status = status; updated_at = at }

-- `IncrementAttempt`, at the real time
unfoldable pub increment_attempt :
    Time → Uuid → Option Error → List Invoice → Outcome (List Invoice)
unfolding update_or update_where
increment_attempt real id =
    update_or invoice_not_found (λ row. row.id == id)
      λ row. record row {
        attempt_count = row.attempt_count + 1;
        attempted_at = some real;
        updated_at = real;
      }

-- `SoftDelete`, at the time that `NOW()` has in the database
unfoldable pub soft_delete : Time → Uuid → Option Error → List Invoice → Outcome (List Invoice)
unfolding update_or update_where
soft_delete at id =
    update_or invoice_not_found (has_id id) (λ row. record row { deleted_at = some at })
