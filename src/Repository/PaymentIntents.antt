-- ===== src/Repository/PaymentIntents.antt =====
-- internal/repository/payment_intent.go
use billing_simulator.Base.{some, Time, String, Bool, ◌&&◌, Option, none, List, ◌==◌, str_eq}
use billing_simulator.Entity.Errors.{Outcome, Error, payment_intent_not_found}
use billing_simulator.Entity.Events.{Uuid}
use billing_simulator.Entity.Aggregate.{no_events}
use billing_simulator.Repository.Table.{
  equals_number, find_first, is_live, insert, find_first, update_or, update_where,
}
use billing_simulator.Entity.PaymentIntent.{PaymentIntent}

-- The columns of a row; what the table has no column for is left at its zero value.
unfoldable pub scan_row : PaymentIntent → PaymentIntent
scan_row x = record x { deleted_at = none; root = no_events }

abbrev pub has_id : Uuid → PaymentIntent → Bool
has_id id x = x.id == id && is_live x.deleted_at

-- `Create`
unfoldable pub create :
    PaymentIntent → Option Error → List PaymentIntent → Outcome (List PaymentIntent)
unfolding scan_row insert
create = insert scan_row

-- `GetByID`
unfoldable pub get_by_id : Uuid → Option Error → List PaymentIntent → Outcome PaymentIntent
unfolding scan_row find_first
get_by_id id = find_first payment_intent_not_found (has_id id) scan_row

-- `GetByPublicID`
unfoldable pub get_by_public_id : String → Option Error → List PaymentIntent → Outcome PaymentIntent
unfolding scan_row find_first
get_by_public_id id =
    find_first payment_intent_not_found (λ x. str_eq x.public_id id && is_live x.deleted_at)
      scan_row

-- The columns that `Update` sets, from the value given.
unfoldable pub set_columns : PaymentIntent → PaymentIntent → PaymentIntent
set_columns x row = record row {
  status = x.status;
  amount_captured = x.amount_captured;
  last_payment_error = x.last_payment_error;
  updated_at = x.updated_at;
}

-- `Update`
unfoldable pub update :
    PaymentIntent → Option Error → List PaymentIntent → Outcome (List PaymentIntent)
unfolding set_columns update_or update_where
update x = update_or payment_intent_not_found (λ row. row.id == x.id) (set_columns x)

-- `GetByInvoiceID`
unfoldable pub get_by_invoice_id : Uuid → Option Error → List PaymentIntent → Outcome PaymentIntent
unfolding scan_row find_first equals_number
get_by_invoice_id invoice =
    find_first payment_intent_not_found
      (λ x. equals_number invoice x.invoice_id && is_live x.deleted_at) scan_row

-- `SoftDelete`, at the time that `NOW()` has in the database
unfoldable pub soft_delete :
    Time → Uuid → Option Error → List PaymentIntent → Outcome (List PaymentIntent)
unfolding update_or update_where
soft_delete at id =
    update_or payment_intent_not_found (has_id id) (λ row. record row { deleted_at = some at })
