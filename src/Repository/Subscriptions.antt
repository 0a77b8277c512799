-- ===== src/Repository/Subscriptions.antt =====
-- internal/repository/subscription.go
use billing_simulator.Base.{
  some, Time, leb, true, false, String, Bool, ◌&&◌, Option, none, List, ◌==◌, str_eq,
}
use billing_simulator.Entity.Errors.{Outcome, Error, subscription_not_found}
use billing_simulator.Entity.Status.{SubscriptionStatus, active, trialing}
use billing_simulator.Entity.Events.{Uuid}
use billing_simulator.Entity.Aggregate.{no_events}
use billing_simulator.Repository.Table.{
  find_all, sort_desc, is_live, insert, find_first, update_or, update_where,
}
use billing_simulator.Entity.Subscription.{Subscription}

-- The columns of a row; what the table has no column for is left at its zero value.
unfoldable pub scan_row : Subscription → Subscription
scan_row x = record x {
  customer_public_id = "";
  price_public_id = "";
  deleted_at = none;
  root = no_events;
}

abbrev pub has_id : Uuid → Subscription → Bool
has_id id x = x.id == id && is_live x.deleted_at

-- `Create`
unfoldable pub create :
    Subscription → Option Error → List Subscription → Outcome (List Subscription)
unfolding scan_row insert
create = insert scan_row

-- `GetByID`
unfoldable pub get_by_id : Uuid → Option Error → List Subscription → Outcome Subscription
unfolding scan_row find_first
get_by_id id = find_first subscription_not_found (has_id id) scan_row

-- `GetByPublicID`
unfoldable pub get_by_public_id : String → Option Error → List Subscription → Outcome Subscription
unfolding scan_row find_first
get_by_public_id id =
    find_first subscription_not_found (λ x. str_eq x.public_id id && is_live x.deleted_at) scan_row

-- The columns that `Update` sets, from the value given.
unfoldable pub set_columns : Subscription → Subscription → Subscription
set_columns x row = record row {
  status = x.status;
  current_period_start = x.current_period_start;
  current_period_end = x.current_period_end;
  next_billing_at = x.next_billing_at;
  trial_start = x.trial_start;
  trial_end = x.trial_end;
  canceled_at = x.canceled_at;
  at_period_end = x.at_period_end;
  updated_at = x.updated_at;
}

-- `Update`
unfoldable pub update :
    Subscription → Option Error → List Subscription → Outcome (List Subscription)
unfolding set_columns update_or update_where
update x = update_or subscription_not_found (λ row. row.id == x.id) (set_columns x)

-- `GetByCustomerID`
unfoldable pub get_by_customer_id :
    Uuid → Option Error → List Subscription → Outcome (List Subscription)
unfolding scan_row find_all sort_desc
get_by_customer_id customer =
    find_all (λ x. x.customer_id == customer && is_live x.deleted_at)
      (λ rows. sort_desc (λ x. x.created_at) rows) scan_row

-- `status IN ('active', 'trialing')`
unfoldable pub is_renewable : SubscriptionStatus → Bool
is_renewable active = true
is_renewable trialing = true
is_renewable _ = false

-- The WHERE clause of `GetActiveForRenewal`
unfoldable pub is_due : Time → Subscription → Bool
unfolding is_renewable
is_due now x = is_renewable x.status && (leb x.next_billing_at now && is_live x.deleted_at)

-- `GetActiveForRenewal`
unfoldable pub get_active_for_renewal :
    Time → Option Error → List Subscription → Outcome (List Subscription)
unfolding scan_row find_all is_due
get_active_for_renewal now = find_all (is_due now) (λ rows. rows) scan_row

-- `UpdateNextBilling`, at the time that `NOW()` has in the database
unfoldable pub update_next_billing :
    Time
    → Uuid
    → Time
    → Time
    → Time
    → Option Error
    → List Subscription
    → Outcome (List Subscription)
unfolding update_or update_where
update_next_billing at id next_billing period_start period_end =
    update_or subscription_not_found (λ row. row.id == id)
      λ row. record row {
        next_billing_at = next_billing;
        current_period_start = period_start;
        current_period_end = period_end;
        updated_at = at;
      }

-- `SoftDelete`, at the time that `NOW()` has in the database
unfoldable pub soft_delete :
    Time → Uuid → Option Error → List Subscription → Outcome (List Subscription)
unfolding update_or update_where
soft_delete at id =
    update_or subscription_not_found (has_id id) (λ row. record row { deleted_at = some at })
