-- ===== src/Repository/WebhookLogs.antt =====
-- internal/repository/webhook_log.go
use billing_simulator.Base.{
  ℕ, ◌+◌, String, Bool, true, false, ◌&&◌, Option, none, some, List, map, leb, ◌==◌, take, keep,
  find?, Time, not, length,
}
use billing_simulator.Entity.Errors.{Outcome, returns, fails, Error, data_not_found}
use billing_simulator.Entity.Status.{WebhookStatus, pending, delivered, failed}
use billing_simulator.Entity.Events.{Uuid}
use billing_simulator.Entity.WebhookLog.{WebhookLog}
use billing_simulator.Repository.Table.{insert, update_where, update_or, sort_by}

abbrev pub has_id : Uuid → WebhookLog → Bool
has_id id wl = wl.id == id

-- `status IN ('pending', 'failed')`
abbrev pub is_unsettled : WebhookStatus → Bool
is_unsettled pending = true
is_unsettled failed = true
is_unsettled delivered = false

-- The WHERE clause of `GetPendingForRetry`
unfoldable pub is_due : Time → WebhookLog → Bool
is_due now wl = is_unsettled wl.status && leb wl.next_attempt_at now

-- The columns that `GetPendingForRetry` reads; the others are left at their zero values.
unfoldable pub scan_pending : WebhookLog → WebhookLog
scan_pending wl = record wl {
  response_code = none;
  response_body = "";
  error_message = none;
  delivered_at = none;
}

-- `GetPendingForRetry`
unfoldable pub get_pending_for_retry :
    Time → ℕ → Option Error → List WebhookLog → Outcome (List WebhookLog)
unfolding is_due scan_pending sort_by
get_pending_for_retry now limit (some e) logs = fails e
get_pending_for_retry now limit none logs =
    returns
      (map scan_pending (take limit (sort_by (λ wl. wl.next_attempt_at) (keep (is_due now) logs))))

-- The columns that `Update` sets, from the log given.
unfoldable pub set_outcome : WebhookLog → WebhookLog → WebhookLog
set_outcome wl row = record row {
  status = wl.status;
  response_code = wl.response_code;
  response_body = wl.response_body;
  attempt = wl.attempt;
  error_message = wl.error_message;
  next_attempt_at = wl.next_attempt_at;
  delivered_at = wl.delivered_at;
  updated_at = wl.updated_at;
}

-- `Update`
unfoldable pub update : WebhookLog → Option Error → List WebhookLog → Outcome (List WebhookLog)
unfolding set_outcome update_or update_where
update wl = update_or data_not_found (has_id wl.id) (set_outcome wl)

-- The columns that `MarkFailed` sets
unfoldable pub set_failed : String → Time → Time → WebhookLog → WebhookLog
set_failed message next_attempt now row = record row {
  status = failed;
  error_message = some message;
  next_attempt_at = next_attempt;
  attempt = row.attempt + 1;
  updated_at = now;
}

-- `MarkFailed`
unfoldable pub mark_failed :
    Uuid → String → Time → Time → Option Error → List WebhookLog → Outcome (List WebhookLog)
unfolding set_failed update_or update_where
mark_failed id message next_attempt now =
    update_or data_not_found (has_id id) (set_failed message next_attempt now)

-- `MarkDelivered`
unfoldable pub mark_delivered :
    Uuid → ℕ → Time → Option Error → List WebhookLog → Outcome (List WebhookLog)
unfolding update_or update_where
mark_delivered id code at = update_or data_not_found (has_id id) (λ row. record row {
  status = delivered;
  response_code = some code;
  delivered_at = some at;
  updated_at = at;
})

-- `Create`, which stores the columns that the statement names.
unfoldable pub create : WebhookLog → Option Error → List WebhookLog → Outcome (List WebhookLog)
unfolding scan_pending insert
create = insert scan_pending

-- `GetByID`
unfoldable pub get_by_id : Uuid → Option Error → List WebhookLog → Outcome WebhookLog
get_by_id id (some e) logs = fails e
get_by_id id none logs = elim (find? (has_id id) logs) [
  | none ↦ fails data_not_found
  | some wl ↦ returns wl
]

-- `GetByTraceID`, which reads other columns than `GetPendingForRetry`.
unfoldable pub scan_trace : WebhookLog → WebhookLog
scan_trace wl = record wl { response_body = ""; max_attempts = 0; updated_at = 0 }

unfoldable pub get_by_trace_id : Uuid → Option Error → List WebhookLog → Outcome (List WebhookLog)
unfolding scan_trace sort_by
get_by_trace_id trace (some e) logs = fails e
get_by_trace_id trace none logs =
    returns
      (map scan_trace (sort_by (λ wl. wl.created_at) (keep (λ wl. wl.trace_id == trace) logs)))

-- `DeleteOldLogs`, given the time before which logs are old: the rows that are left, and the number of
-- those that went.
unfoldable pub delete_old_logs :
    Time → Option Error → List WebhookLog → Outcome (List WebhookLog × ℕ)
delete_old_logs before (some e) logs = fails e
delete_old_logs before none logs = returns (
  keep (λ wl. not (leb wl.created_at before)) logs,
  length (keep (λ wl. leb wl.created_at before) logs),
)
