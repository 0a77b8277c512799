-- ===== src/Platform/Postgres/Attempts.antt =====
-- pkg/storage/postgres/postgres.go: when New connects.
use billing_simulator.Base.{
  apply_options, ℕ, zero, suc, ◌≡◌, refl, sym, subst, Option, none, some, List, All, true, leb_ℤ,
  Duration,
}
use billing_simulator.Entity.Errors.{Outcome, returns, fails, Error}
use billing_simulator.Platform.Backoff.{IsDelay, next_delay-IsDelay, draw_delay-within}
use billing_simulator.Platform.Postgres.{
  Config, Weather, attempt_error, delay_of, next_backoff, slept, after_failure, after_attempt,
  connect, new_with, new, default_configs, validate_config,
}

module _ (weather : ℕ → Weather) where
  either_attempt : Option Error → ℕ → Option ℕ → Option ℕ
  either_attempt none i rest = some i
  either_attempt (some e) i rest = rest

  -- The first attempt that meets no error, among so many from one on.
  unfoldable pub first_success : ℕ → ℕ → Option ℕ
  unfolding either_attempt
  first_success zero i = none
  first_success (suc left) i =
      either_attempt (attempt_error (weather i)) i (first_success left (suc i))

-- A call ends as a search does: with the attempt that was found, or with an error.
abbrev pub EndsAs : Option ℕ → Outcome ℕ → Type 0
EndsAs (some k) r = r ≡ returns k
EndsAs none (fails e) = Unit
EndsAs none _ = ⊥

abbrev Connects : Config → Option ℕ → List Duration × Outcome ℕ → Type 0
Connects c found r = EndsAs found r.1 × All (λ d. leb_ℤ d c.max_retry_delay ≡ true) r.0

module _ (c : Config) (weather : ℕ → Weather) (room : IsDelay c.max_retry_delay) where
  after_failure-Connects :
      (backoff : Duration) (roll : ℕ) (found : Option ℕ) (r : List Duration × Outcome ℕ)
      → IsDelay backoff
      → Connects c found r
      → Connects c found (after_failure c backoff roll r)
  unfolding after_failure slept delay_of
  after_failure-Connects backoff roll found (delays, r) h (k, l) =
      let (delay, drawn, within) = draw_delay-within c.max_retry_delay backoff roll h in
      rw drawn (k, (within, l))

  after_attempt-Connects :
      (i : ℕ) (backoff : Duration) (roll : ℕ) (e : Option Error) (found : Option ℕ)
      (rest : Error → List Duration × Outcome ℕ)
      → IsDelay backoff
      → ((e : Error) → Connects c found (rest e))
      → Connects c (either_attempt weather e i found) (after_attempt c i backoff roll e rest)
  unfolding after_attempt either_attempt
  after_attempt-Connects i backoff roll none found rest h k = (refl, tt)
  after_attempt-Connects i backoff roll (some e) found rest h k =
      after_failure-Connects backoff roll found (rest e) h (k e)

  connect-Connects :
      (left i : ℕ) (backoff : Duration) (last : Error)
      → IsDelay backoff
      → Connects c (first_success weather left i) (connect c weather left i backoff last)
  unfolding connect first_success next_backoff
  connect-Connects zero i backoff last h = (tt, tt)
  connect-Connects (suc left) i backoff last h =
      after_attempt-Connects i backoff (weather i).roll (attempt_error (weather i))
        (first_success weather left (suc i)) _ h
        λ e.
          connect-Connects left (suc i) (next_backoff c backoff) e
            (next_delay-IsDelay c.max_retry_delay backoff room h)

-- With a valid configuration, made of any options, whose delays are positive and can be doubled in an
-- int64, New connects at the first attempt that meets no error, of ConnAttempts at most, and fails when
-- there is none; it does not panic, and no delay before an attempt is longer than MaxRetryDelay.
pub new-connects :
    (base : Config) (settings : List (Config → Config)) (weather : ℕ → Weather) (c : Config)
    → apply_options settings (default_configs base) ≡ c
    → validate_config c ≡ none
    → IsDelay c.base_retry_delay
    → IsDelay c.max_retry_delay
    → EndsAs (first_success weather c.conn_attempts 1) (new base settings weather).1
      × All (λ d. leb_ℤ d c.max_retry_delay ≡ true) (new base settings weather).0
unfolding new new_with
new-connects base settings weather c made valid first longest =
    subst
      (λ x.
        Connects c (first_success weather c.conn_attempts 1)
          (new_with x (validate_config x) weather))
      (sym made)
      (subst (λ v. Connects c (first_success weather c.conn_attempts 1) (new_with c v weather))
        (sym valid)
        (connect-Connects c weather longest c.conn_attempts 1 c.base_retry_delay _ first))
