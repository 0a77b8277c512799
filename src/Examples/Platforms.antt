-- ===== src/Examples/Platforms.antt =====
-- The theorems on dead letters, connections and the cache, at concrete inputs.
use billing_simulator.Base.{
  pos, leb_ℤ, true, apply_options, ℕ, suc, ◌≡◌, ◌+◌, ◌≤◌, refl, String, false, Option, none, some,
  List, [], ◌∷◌, All, length, second, str_eq, arith, ◌*◌,
}
use billing_simulator.Entity.Errors.{Outcome, returns, Error, pg_error}
use billing_simulator.Platform.DeadLetters.{
  DeadLetter, Dlq, Config, new_dlq, backs_off, ended, publishes, receives, waits_out, is_cut,
  closes, Event, run,
}
use billing_simulator.Platform.DeadLetters.Conservation.{
  count, held, WaitsWithin, run_keeps_letters,
}
use billing_simulator.Platform.DeadLetters.Shutdown.{StartsWith, close_in_wait_strands}
use billing_simulator.Platform.Postgres
use billing_simulator.Platform.Postgres.{Weather, with_conn_attempts}
use billing_simulator.Platform.Postgres.Attempts.{EndsAs, first_success, new-connects}
use billing_simulator.Platform.Redis
use billing_simulator.Platform.Processor
use billing_simulator.Platform.Processor.{unretryable_error, dead, Message}
use billing_simulator.Platform.Processor.Accounting.{World, Surroundings, process_message}
use billing_simulator.Repository.Table.Sorted.{OnReturn}
use billing_simulator.Repository.Cache.{set_batch}
use billing_simulator.Repository.Cache.Laws.{Stored, set_batch-Stored}

abbrev small : Config
small = record { buffer_size = 1; initial_backoff = second; max_backoff = 3 * second }

abbrev letter : String → DeadLetter
letter v = record {
  topic = "billing.invoice.paid";
  key = "1";
  value = v;
  headers = [];
  err = some "timeout";
  attempt = 3;
}

abbrev broken : Option Error
broken = some (pg_error "broker")

-- Two letters, of which the first cannot be sent, and takes the second's place behind it.
abbrev events : List Event
events =
    publishes false false none (letter "a")
    ∷ receives broken
    ∷ publishes false false none (letter "b")
    ∷ waits_out
    ∷ []

run_keeps_letters_example :
    (count (λ m. str_eq m.value "b") (run small events (new_dlq small)).accepted
      ≡ count (λ m. str_eq m.value "b") (run small events (new_dlq small)).sent
        + (count (λ m. str_eq m.value "b") (run small events (new_dlq small)).ch
            + (count (λ m. str_eq m.value "b") (held (run small events (new_dlq small)).stage)
                + count (λ m. str_eq m.value "b") (run small events (new_dlq small)).lost)))
    × (length (run small events (new_dlq small)).ch ≤ 1)
    × WaitsWithin small (run small events (new_dlq small)).stage
run_keeps_letters_example = run_keeps_letters small (omega arith) events (λ m. str_eq m.value "b")

events_test :
    (length (run small events (new_dlq small)).ch ≡ 1)
    × (length (run small events (new_dlq small)).lost ≡ 1)
unfolding run
events_test = (refl, refl)

abbrev waiting : Dlq
waiting = record (new_dlq small) {
  ch = letter "b" ∷ [];
  stage = backs_off (letter "a") second;
  accepted = letter "b" ∷ letter "a" ∷ [];
}

close_in_wait_strands_example :
    ((run small (closes ∷ is_cut ∷ []) waiting).lost ≡ letter "a" ∷ [])
    × ((run small (closes ∷ is_cut ∷ receives none ∷ []) waiting).stage ≡ ended)
    × StartsWith (letter "b" ∷ []) (run small (closes ∷ is_cut ∷ receives none ∷ []) waiting).ch
close_in_wait_strands_example =
    close_in_wait_strands small waiting (letter "a") second (receives none ∷ []) refl

abbrev order : Message
order = record { topic = "orders"; offset = 7; key = "1"; value = "x"; headers = [] }

-- The handler cannot take the message, the queue is full, and the broker refuses the letter.
abbrev refuses : ℕ → Processor.Weather
refuses n = record { outcome = some (unretryable_error "bad"); roll = 7; ends = false }

abbrev surroundings : Surroundings
surroundings = record { over = false; chosen = false; broker = broken }

abbrev world : World
world = record { commits = []; dlq = waiting }

-- It is lost: it is committed, and the queue is as it was.
lost_test :
    process_message small surroundings order Processor.default_config refuses world
    ≡ (dead 1 (some (unretryable_error "bad")), record { commits = order ∷ []; dlq = waiting })
unfolding process_message
lost_test = refl

abbrev base : Postgres.Config
base = record {
  host = "localhost";
  port = "5432";
  user = "u";
  password = "p";
  name = "billing";
  ssl_mode = "disable";
  max_pool_size = 0;
  conn_attempts = 0;
  base_retry_delay = pos 0;
  max_retry_delay = pos 0;
}

-- The database answers at the third attempt.
abbrev third : ℕ → Weather
third (suc (suc (suc n))) = record { pool = none; ping = none; roll = 0 }
third n = record { pool = none; ping = broken; roll = 150000000 }

new-connects_example :
    EndsAs (first_success third 4 1) (Postgres.new base (with_conn_attempts 4 ∷ []) third).1
    × All
        (λ d. leb_ℤ d (pos (5 * second)) ≡ true)
        (Postgres.new base (with_conn_attempts 4 ∷ []) third).0
unfolding apply_options Postgres.with_conn_attempts Postgres.default_configs
    Postgres.validate_config
new-connects_example =
    new-connects base (with_conn_attempts 4 ∷ []) third
      (record base {
        max_pool_size = 100;
        conn_attempts = 4;
        base_retry_delay = pos 100000000;
        max_retry_delay = pos (5 * second);
      })
      refl refl (omega arith, omega arith) (omega arith, omega arith)

third_test :
    ((Postgres.new base (with_conn_attempts 4 ∷ []) third).1 ≡ returns 3)
    × ((Postgres.new base (with_conn_attempts 4 ∷ []) third).0 ≡ pos 150000000 ∷ pos 150000000 ∷ [])
unfolding Postgres.new Postgres.with_conn_attempts
third_test = (refl, refl)

-- Redis answers from the second ping on.
abbrev second_ping : ℕ → Option Error
second_ping (suc (suc n)) = none
second_ping n = broken

-- Texts are their own JSON.
abbrev as_is : String → Outcome String
as_is v = returns v

set_batch-Stored_example :
    OnReturn
      (set_batch as_is as_is (("a", "1") ∷ ("b", "2") ∷ []) none (λ key. none))
      (Stored as_is as_is (("a", "1") ∷ ("b", "2") ∷ []) (λ key. none))
set_batch-Stored_example =
    set_batch-Stored as_is as_is (("a", "1") ∷ ("b", "2") ∷ []) none (λ key. none) (λ v. refl)
      (refl, (refl, tt))
