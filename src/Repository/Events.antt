-- ===== src/Repository/Events.antt =====
-- internal/repository/event.go
use billing_simulator.Base.{
  ℕ, String, Option, none, some, List, [], ◌∷◌, ◌++◌, ◌==◌, str_eq, take, drop, keep,
}
use billing_simulator.Entity.Errors.{Outcome, returns, fails, Error, data_not_found}
use billing_simulator.Entity.Events.{Uuid}
use billing_simulator.Entity.StoredEvent.{Event}
use billing_simulator.Repository.Table.{sort_desc, find_first}

-- `Create`, which has no error of its own for a violated constraint.
unfoldable pub create : Event → Option Error → List Event → Outcome (List Event)
create e (some fault) rows = fails fault
create e none rows = returns (rows ++ e ∷ [])

-- `GetByID`
unfoldable pub get_by_id : Uuid → Option Error → List Event → Outcome Event
unfolding find_first
get_by_id id = find_first data_not_found (λ e. e.id == id) (λ e. e)

-- `GetByType`
unfoldable pub get_by_type : String → ℕ → ℕ → Option Error → List Event → Outcome (List Event)
unfolding sort_desc
get_by_type event_type limit offset (some fault) rows = fails fault
get_by_type event_type limit offset none rows = returns (
    take limit (
      drop offset
        (sort_desc (λ e. e.created_at) (keep (λ e. str_eq e.event_type event_type) rows))))

-- `GetRecent`
unfoldable pub get_recent : ℕ → ℕ → Option Error → List Event → Outcome (List Event)
unfolding sort_desc
get_recent limit offset (some fault) rows = fails fault
get_recent limit offset none rows =
    returns (take limit (drop offset (sort_desc (λ e. e.created_at) rows)))
