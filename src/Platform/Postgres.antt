-- ===== src/Platform/Postgres.antt =====
-- pkg/storage/postgres/postgres.go and options.go: the configuration, and the loop of New. What the
-- driver answers to each attempt, and the number that is drawn for a delay, are inputs, and so are
-- the functions of net and net/url that make the address. The counts of a configuration are
-- natural numbers: a negative number of attempts that an option sets does what 0 does in the loop, and
-- negative counts are otherwise left out.
pub mod Attempts
use billing_simulator.Base.{
  apply_options, ℕ, zero, suc, ◌+◌, ◌-◌, ◌*◌, ◌/◌, ◌%◌, String, ◌<>◌, Bool, true, false, Option,
  none, some, List, [], ◌∷◌, leb, ltb, ◌==◌, second, if◌then◌else◌, pos, ltb_ℤ, eqb_ℤ, Duration,
}
use billing_simulator.Entity.Errors.{Outcome, returns, fails, panics, Error, message}
use billing_simulator.Platform.Backoff.{next_delay, draw_delay}

abbrev pub millisecond : ℕ
millisecond = 1000000

pub record Config : Type 0 where
  pub host : String
  pub port : String
  pub user : String
  pub password : String
  pub name : String
  pub ssl_mode : String
  pub max_pool_size : ℕ
  pub conn_attempts : ℕ
  pub base_retry_delay : Duration
  pub max_retry_delay : Duration

-- `DSN`
unfoldable pub dsn : (String → String) → (String → String → String) → Config → String
dsn path_escape join_host_port c =
    "postgres://"
    <> (path_escape c.user
        <> (":"
            <> (path_escape c.password
                <> ("@"
                    <> (join_host_port c.host c.port
                        <> ("/" <> (path_escape c.name <> ("?sslmode=" <> c.ssl_mode))))))))

-- A setting that is left at 0 has its default.
abbrev pub or_default : ℕ → ℕ → ℕ
or_default value default = if value == 0 then default else value

abbrev pub or_default_delay : Duration → Duration → Duration
or_default_delay value default = if eqb_ℤ value (pos 0) then default else value

-- `defaultConfigs`
unfoldable pub default_configs : Config → Config
default_configs c = record c {
  max_pool_size = or_default c.max_pool_size 100;
  conn_attempts = or_default c.conn_attempts 10;
  base_retry_delay = or_default_delay c.base_retry_delay (pos (100 * millisecond));
  max_retry_delay = or_default_delay c.max_retry_delay (pos (5 * second));
}

-- `WithMaxPoolSize`
unfoldable pub with_max_pool_size : ℕ → Config → Config
with_max_pool_size n c = record c { max_pool_size = n }

-- `WithConnAttempts`
unfoldable pub with_conn_attempts : ℕ → Config → Config
with_conn_attempts n c = record c { conn_attempts = n }

-- `WithBaseRetryDelay`
unfoldable pub with_base_retry_delay : Duration → Config → Config
with_base_retry_delay n c = record c { base_retry_delay = n }

-- `WithMaxRetryDelay`
unfoldable pub with_max_retry_delay : Duration → Config → Config
with_max_retry_delay n c = record c { max_retry_delay = n }

-- `validateConfig`
unfoldable pub validate_config : Config → Option Error
validate_config c =
    if ltb_ℤ c.max_retry_delay c.base_retry_delay
    then some (message "baseRetryDelay cannot exceed maxRetryDelay")
    else none

-- What an attempt meets: the error of the pool, then that of the ping, and the number drawn.
pub record Weather : Type 0 where
  pub pool : Option Error
  pub ping : Option Error
  pub roll : ℕ

-- The error of an attempt
unfoldable pub attempt_error : Weather → Option Error
attempt_error w = elim w.pool [ some e ↦ some e | none ↦ w.ping ]

-- `min(time.Duration(rand.Int64N(int64(currentBackoff*2))), MaxRetryDelay)`
unfoldable pub delay_of : Config → Duration → ℕ → Outcome Duration
unfolding draw_delay
delay_of c backoff roll = draw_delay c.max_retry_delay backoff roll

unfoldable pub next_backoff : Config → Duration → Duration
unfolding next_delay
next_backoff c backoff = next_delay c.max_retry_delay backoff

unfoldable pub slept : Outcome Duration → List Duration × Outcome ℕ → List Duration × Outcome ℕ
slept (returns delay) (delays, r) = (delay ∷ delays, r)
slept _ rest = ([], panics)

-- An attempt that has failed sleeps before what follows it, or panics in the draw of the delay.
unfoldable pub after_failure :
    Config → Duration → ℕ → List Duration × Outcome ℕ → List Duration × Outcome ℕ
unfolding delay_of slept
after_failure c backoff roll rest = slept (delay_of c backoff roll) rest

unfoldable pub after_attempt :
    Config
    → ℕ
    → Duration
    → ℕ
    → Option Error
    → (Error → List Duration × Outcome ℕ)
    → List Duration × Outcome ℕ
unfolding after_failure
after_attempt c i backoff roll none rest = ([], returns i)
after_attempt c i backoff roll (some e) rest = after_failure c backoff roll (rest e)

-- The loop of `New`, by the attempts that are left and the number of the next one: its delays, and
-- the number of the attempt that connected.
unfoldable pub connect :
    Config → (ℕ → Weather) → ℕ → ℕ → Duration → Error → List Duration × Outcome ℕ
unfolding attempt_error after_attempt next_backoff
connect c weather zero i backoff last = ([], fails last)
connect c weather (suc left) i backoff last =
    after_attempt c i backoff (weather i).roll (attempt_error (weather i))
      λ e. connect c weather left (suc i) (next_backoff c backoff) e

-- What `New` does with a configuration that its options have changed.
unfoldable pub new_with : Config → Option Error → (ℕ → Weather) → List Duration × Outcome ℕ
unfolding connect
new_with c (some e) weather = ([], fails e)
new_with c none weather =
    connect c weather c.conn_attempts 1 c.base_retry_delay (message "%!w(<nil>)")

-- `New`, where the address can be parsed
unfoldable pub new : Config → List (Config → Config) → (ℕ → Weather) → List Duration × Outcome ℕ
unfolding new_with validate_config apply_options default_configs
new base settings weather =
    let c = apply_options settings (default_configs base) in new_with c (validate_config c) weather
