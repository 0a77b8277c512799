-- ===== src/Repository/WebhookEndpoints.antt =====
-- internal/repository/webhook_endpoint.go
use billing_simulator.Base.{
  String, Bool, ◌&&◌, Option, none, some, List, map, ◌==◌, str_eq, keep, Time, false,
}
use billing_simulator.Entity.Errors.{Outcome, returns, fails, Error, webhook_endpoint_not_found}
use billing_simulator.Entity.Events.{Uuid}
use billing_simulator.Entity.WebhookEndpoint.{WebhookEndpoint}
use billing_simulator.Repository.Table.{
  is_live, insert, find_first, update_or, update_where, sort_desc,
}

-- The columns of a row. The secret has none: only its prefix and its encrypted form are stored.
unfoldable pub scan_row : WebhookEndpoint → WebhookEndpoint
scan_row e = record e { secret = ""; deleted_at = none }

-- `Create`
unfoldable pub create :
    WebhookEndpoint → Option Error → List WebhookEndpoint → Outcome (List WebhookEndpoint)
unfolding scan_row insert
create = insert scan_row

-- `GetByID`
unfoldable pub get_by_id : Uuid → Option Error → List WebhookEndpoint → Outcome WebhookEndpoint
unfolding scan_row find_first
get_by_id id =
    find_first webhook_endpoint_not_found (λ e. e.id == id && is_live e.deleted_at) scan_row

-- `GetByPublicID`
unfoldable pub get_by_public_id :
    String → Option Error → List WebhookEndpoint → Outcome WebhookEndpoint
unfolding scan_row find_first
get_by_public_id id =
    find_first webhook_endpoint_not_found (λ e. str_eq e.public_id id && is_live e.deleted_at)
      scan_row

-- The WHERE clause of `GetByCustomerID`
abbrev pub is_of : Uuid → WebhookEndpoint → Bool
is_of customer e = e.customer_id == customer && is_live e.deleted_at

-- `GetByCustomerID`
unfoldable pub get_by_customer_id :
    Uuid → Option Error → List WebhookEndpoint → Outcome (List WebhookEndpoint)
unfolding scan_row sort_desc
get_by_customer_id customer (some fault) rows = fails fault
get_by_customer_id customer none rows =
    returns (map scan_row (sort_desc (λ e. e.created_at) (keep (is_of customer) rows)))

-- The WHERE clause of `GetActiveByCustomerID`
abbrev pub is_active_of : Uuid → WebhookEndpoint → Bool
is_active_of customer e = e.customer_id == customer && (e.enabled && is_live e.deleted_at)

-- `GetActiveByCustomerID`
unfoldable pub get_active_by_customer_id :
    Uuid → Option Error → List WebhookEndpoint → Outcome (List WebhookEndpoint)
unfolding scan_row sort_desc
get_active_by_customer_id customer (some fault) rows = fails fault
get_active_by_customer_id customer none rows =
    returns (map scan_row (sort_desc (λ e. e.created_at) (keep (is_active_of customer) rows)))

-- The columns that `Update` sets, from the endpoint given.
unfoldable pub set_columns : WebhookEndpoint → WebhookEndpoint → WebhookEndpoint
set_columns e row = record row {
  url = e.url;
  description = e.description;
  secret_prefix = e.secret_prefix;
  secret_encrypted = e.secret_encrypted;
  enabled_events = e.enabled_events;
  enabled = e.enabled;
  updated_at = e.updated_at;
}

-- `Update`
unfoldable pub update :
    WebhookEndpoint → Option Error → List WebhookEndpoint → Outcome (List WebhookEndpoint)
unfolding set_columns update_or update_where
update e = update_or webhook_endpoint_not_found (λ row. row.id == e.id) (set_columns e)

-- `SoftDelete`, at the time that `NOW()` has in the database
unfoldable pub soft_delete :
    Time → Uuid → Option Error → List WebhookEndpoint → Outcome (List WebhookEndpoint)
unfolding update_or update_where
soft_delete at id =
    update_or webhook_endpoint_not_found (λ row. row.id == id && is_live row.deleted_at)
      (λ row. record row { deleted_at = some at; enabled = false })
