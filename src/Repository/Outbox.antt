-- ===== src/Repository/Outbox.antt =====
-- internal/repository/outbox.go. The clock of the repository is a field that may be nil; NOW() is
-- the database's own time.
pub mod Retries
use billing_simulator.Base.{
  ℕ, suc, ◌+◌, ◌*◌, ◌^◌, Bool, true, false, not, ◌&&◌, ◌||◌, String, Option, none, some, List, [],
  ◌∷◌, ◌++◌, leb, ◌==◌, take, keep, length, pos, wrap, Time, second, add_duration, if◌then◌else◌,
}
use billing_simulator.Entity.Errors.{Outcome, returns, fails, panics, Error, data_not_found}
use billing_simulator.Entity.Events.{Uuid}
use billing_simulator.Entity.Outbox.{OutboxEvent}
use billing_simulator.Repository.Table.{insert, update_or, update_where, sort_by}

-- `NewOutboxRepository` sets no clock.
abbrev pub new_outbox_repository : Option Time
new_outbox_repository = none

-- `Save`, which stores the columns that the statement names.
unfoldable pub save : OutboxEvent → Option Error → List OutboxEvent → Outcome (List OutboxEvent)
unfolding insert
save = insert (λ e. record e { processed_at = none; error = none })

-- `SaveBatch`: one statement for all the events, none for none.
unfoldable pub save_batch :
    List OutboxEvent → Option Error → List OutboxEvent → Outcome (List OutboxEvent)
save_batch [] fault rows = returns rows
save_batch (e ∷ es) (some error) rows = fails error
save_batch (e ∷ es) none rows = returns (rows ++ e ∷ es)

-- `next_attempt_at IS NULL`, or it is not later than now.
abbrev pub is_reached : Option Time → Time → Bool
is_reached none now = true
is_reached (some t) now = leb t now

-- The WHERE clause of `GetUnprocessed`
unfoldable pub is_unprocessed : Time → OutboxEvent → Bool
is_unprocessed now e = not e.processed && (leb e.attempt 5 && is_reached e.next_attempt_at now)

abbrev nulls_first : Option Time → ℕ
nulls_first none = 0
nulls_first (some t) = suc t

-- `GetUnprocessed`, which never uses its last argument, the least age. Sorting by the second key
-- and then stably by the first is the order of the statement.
unfoldable pub get_unprocessed :
    Option Time → ℕ → Option Error → List OutboxEvent → Outcome (List OutboxEvent)
unfolding is_unprocessed sort_by
get_unprocessed none limit fault rows = panics
get_unprocessed (some now) limit (some e) rows = fails e
get_unprocessed (some now) limit none rows = returns (
    take limit (
      sort_by (λ e. nulls_first e.next_attempt_at)
        (sort_by (λ e. e.created_at) (keep (is_unprocessed now) rows))))

-- `MarkProcessed`
unfoldable pub mark_processed :
    Uuid → Time → Option Error → List OutboxEvent → Outcome (List OutboxEvent)
unfolding update_or update_where
mark_processed id now =
    update_or data_not_found (λ e. e.id == id)
      (λ e. record e { processed = true; processed_at = some now })

-- The columns that `MarkFailed` sets, for an attempt below 63, where `math.Pow` is exact.
unfoldable pub set_failed : String → ℕ → Time → OutboxEvent → OutboxEvent
set_failed message attempt now e = record e {
  error = some message;
  attempt = attempt;
  next_attempt_at = some (add_duration now (wrap (pos (2 ^ attempt * second))));
}

-- `MarkFailed`
unfoldable pub mark_failed :
    Option Time → Uuid → String → ℕ → Option Error → List OutboxEvent → Outcome (List OutboxEvent)
unfolding update_or update_where set_failed
mark_failed none id message attempt fault rows = panics
mark_failed (some now) id message attempt fault rows =
    update_or data_not_found (λ e. e.id == id) (set_failed message attempt now) fault rows

abbrev pub is_old : Option Time → Time → Bool
is_old none now = false
is_old (some t) now = leb t now

-- `DeleteOldProcessed`, given the time before which events are old; the rows that are left and the
-- number of those that went.
unfoldable pub delete_old_processed :
    Time → Option Error → List OutboxEvent → Outcome (List OutboxEvent × ℕ)
delete_old_processed before (some e) rows = fails e
delete_old_processed before none rows = returns (
  keep (λ e. not (e.processed && is_old e.processed_at before)) rows,
  length (keep (λ e. e.processed && is_old e.processed_at before) rows),
)
