-- ===== src/Platform/Redis.antt =====
-- pkg/storage/redis/redis.go and options.go: the configuration, and the loop of New. What the driver
-- answers to each ping is an input. Counts of a configuration are natural numbers.
use billing_simulator.Base.{
  apply_options, ℕ, zero, suc, ◌*◌, Option, none, some, List, second, ◌==◌, if◌then◌else◌,
}
use billing_simulator.Entity.Errors.{Outcome, returns, fails, Error}

-- The settings that are not passed on to the driver as they are.
pub record Config : Type 0 where
  pub db : ℕ
  pub ttl : ℕ
  pub pool_size : ℕ
  pub min_idle_conns : ℕ
  pub pool_timeout : ℕ

-- A setting that is left at 0 has its default.
abbrev or_default : ℕ → ℕ → ℕ
or_default value default = if value == 0 then default else value

-- `defaultConfigs`
unfoldable pub default_configs : Config → Config
default_configs c = record c {
  ttl = or_default c.ttl (3600 * second);
  pool_size = or_default c.pool_size 20;
  min_idle_conns = or_default c.min_idle_conns 10;
  pool_timeout = or_default c.pool_timeout (3 * second);
}

-- `WithTTL`
unfoldable pub with_ttl : ℕ → Config → Config
with_ttl n c = record c { ttl = n }

-- `WithPoolSize`
unfoldable pub with_pool_size : ℕ → Config → Config
with_pool_size n c = record c { pool_size = n }

-- `WithMinIdleConns`
unfoldable pub with_min_idle_conns : ℕ → Config → Config
with_min_idle_conns n c = record c { min_idle_conns = n }

-- `WithPoolTimeout`
unfoldable pub with_pool_timeout : ℕ → Config → Config
with_pool_timeout n c = record c { pool_timeout = n }

-- `_defaultConnAttempts`
abbrev pub conn_attempts : ℕ
conn_attempts = 5

-- The configuration that `New` makes of its options
unfoldable pub configure : List (Config → Config) → Config → Config
unfolding apply_options default_configs
configure opts base = apply_options opts (default_configs base)

-- What an attempt does to `lastErr` and to the loop.
unfoldable pub after_ping : Option Error → Option Error → (Error → Option Error) → Option Error
after_ping last none rest = last
after_ping last (some e) rest = rest e

-- The loop of `New`, by the attempts that are left and the number of the next one: the value of
-- `lastErr` at its end.
unfoldable pub ping_until : (ℕ → Option Error) → ℕ → ℕ → Option Error → Option Error
unfolding after_ping
ping_until ping zero i last = last
ping_until ping (suc left) i last =
    after_ping last (ping i) λ e. ping_until ping left (suc i) (some e)

connected : Option Error → Outcome (Unit {0})
connected none = returns tt
connected (some e) = fails e

-- `New`
unfoldable pub new : (ℕ → Option Error) → Outcome (Unit {0})
unfolding ping_until connected
new ping = connected (ping_until ping conn_attempts 1 none)
