-- ===== src/Repository/CacheLock.antt =====
-- internal/repository/cache.go: Lock, over the commands of Redis that it uses. A lock is a key that
-- holds the UUID of its owner until it is released, or until its time to live has passed.
pub mod Exclusion
pub mod Memory
use billing_simulator.Base.{
  ◌≡◌, String, ◌<>◌, Bool, true, false, ◌==◌, Option, none, some, if◌then◌else◌,
}
use billing_simulator.Entity.Errors.{Outcome, returns, fails, Error, message}
use billing_simulator.Entity.Events.{Uuid}

-- The commands, on a state of Redis; SETNX answers whether it has set the key.
pub record Commands (S : Type 0) : Type 0 where
  pub get : String → S → Option Uuid
  pub set_nx : String → Uuid → S → Bool × S
  pub del : String → S → S

-- What Redis documents of them.
pub record IsLawful {S : Type 0} (redis : Commands S) : Type 0 where
  pub set_free :
      (k : String) (v : Uuid) (s : S)
      → redis.get k s ≡ none
      → ((redis.set_nx k v s).0 ≡ true) × (redis.get k (redis.set_nx k v s).1 ≡ some v)
  pub set_held :
      (k : String) (v w : Uuid) (s : S) → redis.get k s ≡ some w → redis.set_nx k v s ≡ (false, s)
  pub get_deleted : (k : String) (s : S) → redis.get k (redis.del k s) ≡ none

module _ {S : Type 0} (redis : Commands S) where
  -- `lockKey`
  abbrev pub lock_key : String → String
  lock_key key = "lock:" <> key

  -- What `Lock` makes of the answer of SETNX
  taken : Bool × S → Outcome (Unit {0}) × S
  taken (true, s) = (returns tt, s)
  taken (false, s) = (fails (message "lock already held"), s)

  -- `Lock`, with the UUID that it draws, and an error of Redis
  unfoldable pub lock : String → Uuid → Option Error → S → Outcome (Unit {0}) × S
  unfolding taken
  lock key value (some e) s = (fails e, s)
  lock key value none s = taken (redis.set_nx (lock_key key) value s)

  -- The script of the function that `Lock` returns
  unfoldable pub release_if : String → Uuid → Option Uuid → S → S
  release_if key value none s = s
  release_if key value (some owner) s = if owner == value then redis.del key s else s

  -- The function that `Lock` returns, of which an error is dropped
  unfoldable pub unlock : String → Uuid → Option Error → S → S
  unfolding release_if
  unlock key value (some e) s = s
  unlock key value none s = release_if (lock_key key) value (redis.get (lock_key key) s) s
