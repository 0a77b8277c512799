-- ===== src/Platform/Transaction/Attempts.antt =====
-- The attempts of ExecuteInTransaction of pkg/storage/postgres/transaction, and what they leave.
use Prim.Native.Nat.add
use billing_simulator.Base.{
  ℕ, zero, suc, ◌+◌, ◌-◌, ◌≤◌, ◌<◌, ◌≡◌, refl, sym, inl, inr, true, false, Option, none, some,
  arith, Option-cases, Bool-cases, subst, Duration, ◌≢◌,
}
use billing_simulator.Entity.Errors.{Outcome, returns, fails, panics, overflows, Error}
use billing_simulator.Platform.Transaction.{
  CommitReply, accepted, refused, lost, commit_or_rollback, Config, Weather, finish, wait, jitter,
  next_backoff, after_attempt, do_transaction, attempts, execute_in_transaction, is_retryable,
  handle_error,
}

module _ {D A : Type 0} (c : Config) (weather : ℕ → Weather) (fn : ℕ → D → Outcome (A × D)) where
  -- What attempts leave whose commits have returned an error though the database has committed: the
  -- state of each, made on the state of the one before.
  pub data Unseen : D → D → Type 0 where
    nothing : {db : D} → Unseen db db
    then_unseen :
        {db db' last : D} {a : A} (i : ℕ) (e : Error)
        → i ≤ c.max_attempts
        → fn i db ≡ returns (a, db')
        → (weather i).commit ≡ lost e
        → Unseen db' last
        → Unseen db last

  -- Either the call returns the value of one of its attempts and leaves that attempt's state, or it
  -- leaves the state that the attempt would have found.
  abbrev pub Atomic : D → Outcome A × D → Type 0
  Atomic db (returns a, db') =
      (found : D) × Unseen db found
      × ((i : ℕ) × (i ≤ c.max_attempts) × (fn i found ≡ returns (a, db')))
  Atomic db (_, db') = Unseen db db'

  Unseen-trans : {db mid last : D} → Unseen db mid → Unseen mid last → Unseen db last
  Unseen-trans nothing k = k
  Unseen-trans (then_unseen i e h f l r) k = then_unseen i e h f l (Unseen-trans r k)

  behind : {db mid : D} → Unseen db mid → (r : Outcome A × D) → Atomic mid r → Atomic db r
  behind u (returns a, db') (found, r, k) = (found, Unseen-trans u r, k)
  behind u (fails e, db') k = Unseen-trans u k
  behind u (panics, db') k = Unseen-trans u k
  behind u (overflows, db') k = Unseen-trans u k

  finish-Atomic :
      (i : ℕ) (commit : CommitReply) (db : D) (m : Outcome (A × D))
      → i ≤ c.max_attempts
      → (weather i).commit ≡ commit
      → fn i db ≡ m
      → Atomic db (finish commit db m)
  unfolding finish commit_or_rollback
  finish-Atomic i accepted db (returns (a, db')) h k e = (db, nothing, (i, h, e))
  finish-Atomic i (refused err) db (returns (a, db')) h k e = nothing
  finish-Atomic i (lost err) db (returns (a, db')) h k e = then_unseen i err h e k nothing
  finish-Atomic i commit db (fails err) h k e = nothing
  finish-Atomic i commit db panics h k e = nothing
  finish-Atomic i commit db overflows h k e = nothing

  do_transaction-Atomic :
      (i : ℕ) (db : D) → i ≤ c.max_attempts → Atomic db (do_transaction (weather i) (fn i) db)
  unfolding do_transaction
  do_transaction-Atomic i db h = elim (Option-cases (weather i).begin) [
    | inl e ↦ rw (e, do_transaction) (finish-Atomic i (weather i).commit db (fn i db) h refl refl)
    | inr (err, e) ↦ rw (e, do_transaction) nothing
  ]

  wait-Atomic :
      (canceled : Option Error) (db db' : D) (rest : Outcome A × D) (delay : Outcome Duration)
      → Unseen db db'
      → Atomic db rest
      → Atomic db (wait canceled db' rest delay)
  unfolding wait
  wait-Atomic none db db' rest (returns n) e h = h
  wait-Atomic (some err) db db' rest (returns n) e h = e
  wait-Atomic canceled db db' rest (fails err) e h = e
  wait-Atomic canceled db db' rest panics e h = e
  wait-Atomic canceled db db' rest overflows e h = e

  after_attempt-Atomic :
      (left : ℕ) (backoff : Duration) (w : Weather) (db : D) (tried rest : Outcome A × D)
      → Atomic db tried
      → Atomic tried.1 rest
      → Atomic db (after_attempt c left backoff w tried rest)
  unfolding after_attempt
  after_attempt-Atomic left backoff w db (returns a, db') rest h k = h
  after_attempt-Atomic zero backoff w db (fails e, db') rest h k = h
  after_attempt-Atomic (suc left) backoff w db (fails e, db') rest h k =
      elim (Bool-cases (is_retryable e)) [
        | inl p ↦
            rw p (wait-Atomic w.canceled db db' rest (jitter c backoff w.roll) h (behind h rest k))
        | inr p ↦ rw p h
      ]
  after_attempt-Atomic left backoff w db (panics, db') rest h k = h
  after_attempt-Atomic left backoff w db (overflows, db') rest h k = h

  attempts-Atomic :
      (left i : ℕ) (backoff : Duration) (db : D)
      → i + left ≤ suc c.max_attempts
      → Atomic db (attempts c weather fn left i backoff db)
  unfolding attempts
  attempts-Atomic zero i backoff db h = nothing
  attempts-Atomic (suc left) i backoff db h =
      let tried = do_transaction (weather i) (fn i) db in
      after_attempt-Atomic left backoff (weather i) db tried _
        (do_transaction-Atomic i db (omega arith))
        (attempts-Atomic left (suc i) (next_backoff c backoff) tried.1 (omega arith))

  -- Each attempt of ExecuteInTransaction is all or nothing, and an attempt that leaves something
  -- without the call returning its value is one whose Commit returned an error though the database had
  -- committed. A call that returns gives the value of an attempt, among the first MaxAttempts, and
  -- leaves that attempt's state, made on what such attempts left of the state that the call found. A
  -- call that ends in any other way leaves what such attempts left.
  pub execute_in_transaction-Atomic : (db : D) → Atomic db (execute_in_transaction c weather fn db)
  unfolding execute_in_transaction
  execute_in_transaction-Atomic db =
      attempts-Atomic c.max_attempts 1 c.base_retry_delay db (omega arith)

  -- Where no commit is lost, attempts leave nothing unseen.
  pub Unseen-none :
      {db last : D}
      → ((i : ℕ) (e : Error) → (weather i).commit ≢ lost e)
      → Unseen db last
      → last ≡ db
  Unseen-none h nothing = refl
  Unseen-none h (then_unseen i e k f l r) = absurd (h i e l)

  attempts-unretryable :
      (left : ℕ) (backoff : Duration) (db : D) (e : Error)
      → (weather 1).begin ≡ none
      → fn 1 db ≡ fails e
      → is_retryable e ≡ false
      → attempts c weather fn (suc left) 1 backoff db ≡ (fails (handle_error e), db)
  unfolding attempts do_transaction finish after_attempt
  attempts-unretryable zero backoff db e b f r = rw (b, f)
  attempts-unretryable (suc left) backoff db e b f r = rw (b, f, r)

  -- An error of the function that is not retryable ends the call after the one attempt that met
  -- it, however many are allowed; the caller gets the error as HandleError reads it.
  pub execute_in_transaction-unretryable :
      (db : D) (e : Error)
      → 0 < c.max_attempts
      → (weather 1).begin ≡ none
      → fn 1 db ≡ fails e
      → is_retryable e ≡ false
      → execute_in_transaction c weather fn db ≡ (fails (handle_error e), db)
  unfolding execute_in_transaction
  execute_in_transaction-unretryable db e p b f r =
      let m : c.max_attempts ≡ suc (c.max_attempts - 1) = omega arith in
      subst (λ k. attempts c weather fn k 1 c.base_retry_delay db ≡ (fails (handle_error e), db))
        (sym m) (attempts-unretryable (c.max_attempts - 1) c.base_retry_delay db e b f r)

-- An attempt that begins, fails with a retryable error, and whose wait is not cut short.
pub record Retried {D A : Type 0} (w : Weather) (m : Outcome (A × D)) : Type 0 where
  pub begun : w.begin ≡ none
  pub waited : w.canceled ≡ none
  pub error : Error
  pub failed : m ≡ fails error
  pub retryable : is_retryable error ≡ true
