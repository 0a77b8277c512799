-- ===== src/Platform/Transaction.antt =====
-- pkg/storage/postgres/transaction: Manager.ExecuteInTransaction, its retries and its errors.
-- The database is any type of states. What pgx does is an input: whether an attempt can begin, and
-- how its commit ends. A commit that is refused leaves the state as it was; one whose error hides that
-- the database has committed leaves the state of the attempt, and is retried like any other. The
-- function under the transaction works on a state of its own, which a rollback drops.
pub mod Attempts
pub mod First
use billing_simulator.Base.{
  apply_options, ℕ, zero, suc, ◌+◌, ◌-◌, ◌*◌, ◌/◌, ◌%◌, String, Bool, true, false, ◌||◌, Option,
  none, some, List, [], ◌∷◌, ltb, leb, str_eq, any, if◌then◌else◌, pos, ltb_ℤ, Duration,
}
use billing_simulator.Entity.Errors.{
  Outcome, returns, fails, panics, overflows, Error, pg_error, deadline_exceeded, context_canceled,
  tx_closed, transaction_timeout, transaction_conflicting_data, transaction_invalid_data, message,
}
use billing_simulator.Platform.Backoff.{next_delay, draw_delay}

pub record Config : Type 0 where
  pub max_attempts : ℕ
  pub base_retry_delay : Duration
  pub max_retry_delay : Duration

-- `defaultConfigs`, the delays in nanoseconds
abbrev pub default_config : Config
default_config = record {
  max_attempts = 3;
  base_retry_delay = pos 100000000;
  max_retry_delay = pos 5000000000;
}

-- `WithMaxAttempts`
unfoldable pub with_max_attempts : ℕ → Config → Config
with_max_attempts n c = record c { max_attempts = n }

-- `WithBaseRetryDelay`
unfoldable pub with_base_retry_delay : Duration → Config → Config
with_base_retry_delay n c = record c { base_retry_delay = n }

-- `WithMaxRetryDelay`
unfoldable pub with_max_retry_delay : Duration → Config → Config
with_max_retry_delay n c = record c { max_retry_delay = n }

-- `validateConfig`
unfoldable pub validate_config : Config → Option Error
validate_config c =
    if ltb_ℤ c.max_retry_delay c.base_retry_delay
    then some (message "baseRetryDelay cannot exceed maxRetryDelay")
    else none

checked : Config → Option Error → Outcome Config
checked c none = returns c
checked c (some e) = fails e

-- `NewManager`: the configuration that it keeps.
unfoldable pub new_manager : List (Config → Config) → Outcome Config
unfolding checked validate_config apply_options
new_manager opts = let c = apply_options opts default_config in checked c (validate_config c)

abbrev retryable_codes : List String
retryable_codes =
    "40P01" ∷ "40001" ∷ "08000" ∷ "08003" ∷ "08006" ∷ "08001" ∷ "08004" ∷ "08007" ∷ "08P01" ∷ []

-- `isRetryableError`
unfoldable pub is_retryable : Error → Bool
is_retryable (pg_error code) = any (str_eq code) retryable_codes
is_retryable tx_closed = true
is_retryable _ = false

handle_code : String → Error
handle_code code =
    if str_eq code "23505"
    then transaction_conflicting_data
    else if str_eq code "23503"
    then transaction_invalid_data
    else pg_error code

-- `HandleError`, up to the texts that it adds
unfoldable pub handle_error : Error → Error
unfolding handle_code
handle_error deadline_exceeded = transaction_timeout
handle_error (pg_error code) = handle_code code
handle_error e = e

-- The next delay: doubled, until it reaches the longest.
unfoldable pub next_backoff : Config → Duration → Duration
unfolding next_delay
next_backoff c backoff = next_delay c.max_retry_delay backoff

-- The wait before the next attempt, for a number that `rand` draws.
unfoldable pub jitter : Config → Duration → ℕ → Outcome Duration
unfolding draw_delay
jitter c backoff roll = draw_delay c.max_retry_delay backoff roll

-- How a call of Commit ends: it has committed, the database has refused it, or it has returned an
-- error though the database has committed, as when the connection is lost behind it.
pub data CommitReply : Type 0 where
  accepted : CommitReply
  refused lost : Error → CommitReply

-- What the outside does to one attempt: the error of BeginTx, the end of Commit, the number that is
-- drawn for the wait after it, and whether the caller's context ends during the wait.
pub record Weather : Type 0 where
  pub begin : Option Error
  pub commit : CommitReply
  pub roll : ℕ
  pub canceled : Option Error

module _ {D A : Type 0} where
  -- `tx.Commit` and what follows
  commit_or_rollback : CommitReply → D → A → D → Outcome A × D
  commit_or_rollback accepted db a db' = (returns a, db')
  commit_or_rollback (refused e) db a db' = (fails e, db)
  commit_or_rollback (lost e) db a db' = (fails e, db')

  finish : CommitReply → D → Outcome (A × D) → Outcome A × D
  unfolding commit_or_rollback
  finish commit db (returns (a, db')) = commit_or_rollback commit db a db'
  finish commit db (fails e) = (fails e, db)
  finish commit db panics = (panics, db)
  finish commit db overflows = (overflows, db)

  -- `doTransaction`
  unfoldable pub do_transaction : Weather → (D → Outcome (A × D)) → D → Outcome A × D
  unfolding finish
  do_transaction w fn db = elim w.begin [
    | some e ↦ (fails e, db)
    | none ↦ finish w.commit db (fn db)
  ]

  -- The wait between two attempts, and then the rest of the loop.
  wait : Option Error → D → Outcome A × D → Outcome Duration → Outcome A × D
  wait canceled db rest (returns delay) = elim canceled [ some e ↦ (fails e, db) | none ↦ rest ]
  wait canceled db rest (fails e) = (fails e, db)
  wait canceled db rest panics = (panics, db)
  wait canceled db rest overflows = (overflows, db)

  -- One round of the loop, with the rest of it: `left` attempts remain behind this one.
  after_attempt : Config → ℕ → Duration → Weather → Outcome A × D → Outcome A × D → Outcome A × D
  unfolding wait handle_error is_retryable jitter
  after_attempt c left backoff w (returns a, db) rest = (returns a, db)
  after_attempt c zero backoff w (fails e, db) rest = (fails (handle_error e), db)
  after_attempt c (suc left) backoff w (fails e, db) rest =
      if is_retryable e
      then wait w.canceled db rest (jitter c backoff w.roll)
      else (fails (handle_error e), db)
  after_attempt c left backoff w (panics, db) rest = (panics, db)
  after_attempt c left backoff w (overflows, db) rest = (overflows, db)

  -- The loop of `ExecuteInTransaction`, by the attempts that are left and the number of this one.
  -- Every attempt runs the function anew, on the state that it finds.
  unfoldable pub attempts :
      Config → (ℕ → Weather) → (ℕ → D → Outcome (A × D)) → ℕ → ℕ → Duration → D → Outcome A × D
  unfolding after_attempt do_transaction next_backoff
  attempts c weather fn zero i backoff db = (fails (message "no attempt was made"), db)
  attempts c weather fn (suc left) i backoff db =
      let tried = do_transaction (weather i) (fn i) db in
      let rest = attempts c weather fn left (suc i) (next_backoff c backoff) tried.1 in
      after_attempt c left backoff (weather i) tried rest

  -- `ExecuteInTransaction`
  unfoldable pub execute_in_transaction :
      Config → (ℕ → Weather) → (ℕ → D → Outcome (A × D)) → D → Outcome A × D
  unfolding attempts
  execute_in_transaction c weather fn db =
      attempts c weather fn c.max_attempts 1 c.base_retry_delay db
