-- ===== src/Platform/Processor.antt =====
-- pkg/kafka/processor.go, errors.go and options_processor.go: a message is handled, with retries,
-- and then committed, or published as dead. What a worker does is the list of its actions; that the
-- broker refuses a commit or a publication is logged only. The attempts of a configuration are a
-- natural number, since a negative count does what 0 does.
pub mod Delivery
pub mod Accounting
use billing_simulator.Base.{
  apply_options, ℕ, zero, suc, ◌+◌, ◌-◌, ◌*◌, ◌/◌, ◌%◌, String, Bool, true, false, Option, none,
  some, List, [], ◌∷◌, leb, ltb, ◌==◌, second, if◌then◌else◌, pos, leb_ℤ, Duration,
}
use billing_simulator.Entity.Errors.{Outcome, returns, fails, message}
use billing_simulator.Platform.Backoff.{next_delay, draw_delay}

pub record Message : Type 0 where
  pub topic : String
  pub offset : ℕ
  pub key : String
  pub value : String
  pub headers : List (String × String)

-- An error of a handler, by its text: one that holds an `UnretryableError`, or another.
pub data HandlerError : Type 0 where
  unretryable_error other_error : String → HandlerError

-- `IsUnretryable`
unfoldable pub is_unretryable : HandlerError → Bool
is_unretryable (unretryable_error _) = true
is_unretryable (other_error _) = false

pub record Config : Type 0 where
  pub max_attempts : ℕ
  pub base_retry_delay : Duration
  pub max_retry_delay : Duration
  pub workers_count : ℕ

-- `DefaultConfig`
abbrev pub default_config : Config
default_config = record {
  max_attempts = 3;
  base_retry_delay = pos second;
  max_retry_delay = pos (30 * second);
  workers_count = 1;
}

-- `WithMaxAttempts`
unfoldable pub with_max_attempts : ℕ → Config → Config
with_max_attempts n c = record c { max_attempts = n }

-- `WithBaseRetryDelay`
unfoldable pub with_base_retry_delay : Duration → Config → Config
with_base_retry_delay n c = record c { base_retry_delay = n }

-- `WithMaxRetryDelay`
unfoldable pub with_max_retry_delay : Duration → Config → Config
with_max_retry_delay n c = record c { max_retry_delay = n }

-- `WithWorkersCount`
unfoldable pub with_workers_count : ℕ → Config → Config
with_workers_count n c = record c { workers_count = n }

-- `Validate`
unfoldable pub validate : Config → Bool
validate c = leb_ℤ c.base_retry_delay c.max_retry_delay

-- `NewProcessor`, with whether it is given a queue of dead letters: the configuration that it keeps.
unfoldable pub new_processor : Bool → List (Config → Config) → Outcome Config
unfolding validate apply_options
new_processor false opts = fails (message "DLQ is required for guaranteed delivery")
new_processor true opts =
    let c = apply_options opts default_config in
    if validate c
    then returns c
    else fails (message "base_retry_delay cannot exceed max_retry_delay")

pub data Action : Type 0 where
  -- the call of the handler in an attempt, by its number
  handled : ℕ → Action
  -- `PublishError`, with the last error, if there is one, and the number of attempts
  published : Option HandlerError → ℕ → Action
  committed : Action

-- How the processing of a message ends: in an attempt that succeeds, as dead after a number of
-- attempts, in a wait after an attempt that the context ends, or in a panic of `rand.Int64N`.
pub data Ending : Type 0 where
  acknowledged stopped : ℕ → Ending
  dead : ℕ → Option HandlerError → Ending
  panicked : Ending

-- What the outside does to an attempt: what the handler returns, the number that is drawn for the
-- wait after it, and whether the context ends during that wait.
pub record Weather : Type 0 where
  pub outcome : Option HandlerError
  pub roll : ℕ
  pub ends : Bool

-- The next delay
unfoldable pub next_backoff : Config → Duration → Duration
unfolding next_delay
next_backoff c backoff = next_delay c.max_retry_delay backoff

-- The end of `processWithRetry`, behind the loop.
unfoldable pub bury : Config → ℕ → Option HandlerError → List Action × Ending
bury c attempts last = (published last c.max_attempts ∷ committed ∷ [], dead attempts last)

-- An attempt comes before what follows it.
unfoldable pub after_attempt : ℕ → List Action × Ending → List Action × Ending
after_attempt i (actions, ending) = (handled i ∷ actions, ending)

-- The wait between two attempts, and then the rest of the loop. How long it takes has no effect.
unfoldable pub wait : Outcome Duration → Bool → ℕ → List Action × Ending → List Action × Ending
wait (returns delay) ends i rest = if ends then ([], stopped i) else rest
wait _ ends i rest = ([], panicked)

-- The loop of `processWithRetry`, by the attempts that are left and the number of the next one.
unfoldable pub attempts :
    Config → (ℕ → Weather) → ℕ → ℕ → Duration → Option HandlerError → List Action × Ending
unfolding after_attempt bury wait next_backoff is_unretryable draw_delay
attempts c weather zero i backoff last = bury c (i - 1) last
attempts c weather (suc left) i backoff last = elim (weather i).outcome [
  | none ↦ (handled i ∷ committed ∷ [], acknowledged i)
  | some e ↦
      let rest = attempts c weather left (suc i) (next_backoff c backoff) (some e) in
      after_attempt i (
        if is_unretryable e
        then bury c i (some e)
        else if left == 0
        then bury c i (some e)
        else wait (draw_delay c.max_retry_delay backoff (weather i).roll) (weather i).ends i rest)
]

-- `processWithRetry`
unfoldable pub process_with_retry : Config → (ℕ → Weather) → List Action × Ending
unfolding attempts
process_with_retry c weather = attempts c weather c.max_attempts 1 c.base_retry_delay none

-- The message that a fetch that fails leaves in its variable.
abbrev pub no_message : Message
no_message = record { topic = ""; offset = 0; key = ""; value = ""; headers = [] }

-- A round of `worker`: what it fetches, or an error, with whether the context has ended by then or
-- ends in the wait; then the message that it goes on to process, if any.
unfoldable pub worker_round : Option Message → Bool → Bool → Option Message
worker_round (some m) ended ends = some m
worker_round none ended ends = if ended then none else if ends then none else some no_message
