-- ===== src/Repository/ApiRequests.antt =====
-- internal/repository/api_request.go
use billing_simulator.Base.{
  ℕ, not, Option, none, some, List, [], ◌∷◌, ◌++◌, leb, ◌==◌, take, drop, keep, length, Time,
}
use billing_simulator.Entity.Errors.{Outcome, returns, fails, Error, data_not_found}
use billing_simulator.Entity.Events.{Uuid}
use billing_simulator.Entity.ApiRequest.{ApiRequest}
use billing_simulator.Repository.Table.{find_first, sort_desc}

-- `Create`: an error is handed on as it is.
unfoldable pub create : ApiRequest → Option Error → List ApiRequest → Outcome (List ApiRequest)
create req (some e) rows = fails e
create req none rows = returns (rows ++ req ∷ [])

-- `GetByTraceID`
unfoldable pub get_by_trace_id : Uuid → Option Error → List ApiRequest → Outcome ApiRequest
unfolding find_first
get_by_trace_id trace = find_first data_not_found (λ r. r.trace_id == trace) (λ r. r)

-- `GetRecent`
unfoldable pub get_recent : ℕ → ℕ → Option Error → List ApiRequest → Outcome (List ApiRequest)
unfolding sort_desc
get_recent limit offset (some e) rows = fails e
get_recent limit offset none rows =
    returns (take limit (drop offset (sort_desc (λ r. r.created_at) rows)))

-- `DeleteOldRequests`, given the time before which requests are old: the rows that are left, and the
-- number of those that went.
unfoldable pub delete_old_requests :
    Time → Option Error → List ApiRequest → Outcome (List ApiRequest × ℕ)
delete_old_requests before (some e) rows = fails e
delete_old_requests before none rows = returns (
  keep (λ r. not (leb r.created_at before)) rows,
  length (keep (λ r. leb r.created_at before) rows),
)
