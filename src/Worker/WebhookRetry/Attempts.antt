-- ===== src/Worker/WebhookRetry/Attempts.antt =====
-- internal/worker/webhook_retry.go: the attempts of a log, over a batch of the worker.
use billing_simulator.Base.{
  ℕ, ◌+◌, ◌≤◌, ◌<◌, ◌≡◌, ◌⊎◌, refl, String, Bool, true, false, Option, none, some, List, [], ◌∷◌,
  any, All, All-mono, leb, leb→le, ℤ, arith, Bool-cases, inl, inr, Time,
}
use billing_simulator.Entity.Errors.{
  Outcome, returns, fails, panics, overflows, Error, data_not_found, Ensures, Ensures->>=,
}
use billing_simulator.Entity.WebhookEndpoint.{WebhookEndpoint}
use billing_simulator.Entity.WebhookLog
use billing_simulator.Entity.WebhookLog.{WebhookLog}
use billing_simulator.Repository.Table.{update_or, update_where-All}
use billing_simulator.Repository.Table.Pairwise.{Pairwise}
use billing_simulator.Repository.WebhookLogs.{has_id, set_outcome, set_failed}
use billing_simulator.Worker.WebhookRetry.{
  Config, Meets, is_success, settle, schedule, or_unchanged, retry_webhook, retry_all, retry_to,
  with_request, request_of, Request,
}
use billing_simulator.Worker.WebhookRetry.Schedule.{backoff_returns, leb-false→lt, settle-exhausted}

-- How a statement on a log may change its row.
abbrev pub Changed : Config → WebhookLog → WebhookLog → WebhookLog → Type 0
Changed c wl row row' =
    (row'.id ≡ row.id)
    × ((row'.attempt ≡ wl.attempt)
        ⊎ ((wl.attempt < c.max_attempts) × (row'.attempt ≡ row.attempt + 1)))

module _ {P Q : WebhookLog → Type 0} where
  statement-All :
      (p : WebhookLog → Bool) (f : WebhookLog → WebhookLog) (fault : Option Error)
      (logs : List WebhookLog)
      → All P logs
      → ((row : WebhookLog) → p row ≡ true → P row → Q (f row))
      → ((row : WebhookLog) → P row → Q row)
      → All Q (or_unchanged logs (update_or data_not_found p f fault logs))
  unfolding update_or
  statement-All p f (some e) logs v k keeps = All-mono logs v keeps
  statement-All p f none logs v k keeps = elim (Bool-cases (any p logs)) [
    | inl e ↦ rw e (update_where-All p f logs v k keeps)
    | inr e ↦ rw e (All-mono logs v keeps)
  ]

  module _ (hmac : String → String → String) (decimal : ℕ → String)
      (error_text : Error → String) where
    schedule-All :
        (c : Config) (now : Time) (m : Meets) (wl : WebhookLog) (logs : List WebhookLog)
        (b : Outcome ℤ) (delay : ℤ)
        → b ≡ returns delay
        → wl.attempt < c.max_attempts
        → All P logs
        → ((row row' : WebhookLog)
            → has_id wl.id row ≡ true
            → Changed c wl row row'
            → P row
            → Q row')
        → ((row : WebhookLog) → P row → Q row)
        → Ensures (schedule hmac decimal error_text wl now m logs b) (All Q)
    unfolding schedule set_failed
    schedule-All c now m wl logs b delay e h v k keeps = rw e (
        statement-All (has_id wl.id) _ m.fault logs v
          (λ row same p. k row _ same (refl, inr (h, refl)) p) keeps)

    -- What holds of the rows of a table after the call of settle for a log.
    pub settle-All :
        (c : Config) (now : Time) (m : Meets) (wl : WebhookLog) (logs : List WebhookLog)
        → 1 ≤ wl.attempt
        → All P logs
        → ((row row' : WebhookLog)
            → has_id wl.id row ≡ true
            → Changed c wl row row'
            → P row
            → Q row')
        → ((row : WebhookLog) → P row → Q row)
        → Ensures (settle hmac decimal error_text c now m wl logs) (All Q)
    unfolding settle set_outcome WebhookLog.mark_delivered
    settle-All c now m wl logs one v k keeps = elim (Bool-cases (is_success m.response)) [
      | inl s ↦ rw s (
          statement-All (has_id wl.id) _ m.fault logs v
            (λ row same p. k row _ same (refl, inl refl) p) keeps)
      | inr s ↦ elim (Bool-cases (leb c.max_attempts wl.attempt)) [
        | inl e ↦
            rw (settle-exhausted hmac decimal error_text c now m wl logs s (leb→le _ _ e))
              (All-mono logs v keeps)
        | inr e ↦
            rw (s, e)
              (schedule-All c now m wl logs _ _ (backoff_returns wl.attempt one).1
                (leb-false→lt _ _ e) v k keeps)
      ]
    ]

-- A row that has a log's identifier has as many attempts as the log.
abbrev pub Follows : WebhookLog → WebhookLog → Type 0
Follows row wl = has_id wl.id row ≡ true → row.attempt ≡ wl.attempt

-- A log has been tried at least once, and MaxAttempts times at most.
abbrev pub IsWithin : Config → WebhookLog → Type 0
IsWithin c wl = (1 ≤ wl.attempt) × (wl.attempt ≤ c.max_attempts)

-- A row is within MaxAttempts, and in step with each log of the batch.
abbrev pub InStep : Config → List WebhookLog → WebhookLog → Type 0
InStep c due row = IsWithin c row × All (Follows row) due

abbrev pub Apart : WebhookLog → WebhookLog → Type 0
Apart wl other = has_id other.id wl ≡ false

-- No two logs have the same identifier.
abbrev pub IsUnique : List WebhookLog → Type 0
IsUnique = Pairwise Apart

-- The lookup of an endpoint returns or fails.
abbrev pub Answers : {A : Type 0} → Outcome A → Type 0
Answers (returns a) = Unit
Answers (fails e) = Unit
Answers panics = ⊥
Answers overflows = ⊥

row-Follows :
    (c : Config) (wl row row' : WebhookLog) (due : List WebhookLog)
    → has_id wl.id row ≡ true
    → Changed c wl row row'
    → All (Apart wl) due
    → All (Follows row') due
row-Follows c wl row row' due same (id, _) apart =
    All-mono due apart λ other h k. absurd (ground (arith, same, id, h, k))

row-InStep :
    (c : Config) (wl row row' : WebhookLog) (due : List WebhookLog)
    → IsWithin c wl
    → All (Apart wl) due
    → has_id wl.id row ≡ true
    → Changed c wl row row'
    → InStep c (wl ∷ due) row
    → InStep c due row'
row-InStep c wl row row' due (one, below) apart same change ((low, high), (step, steps)) =
    (within change.1, row-Follows c wl row row' due same change apart)
  where
    within :
        (row'.attempt ≡ wl.attempt)
          ⊎ ((wl.attempt < c.max_attempts) × (row'.attempt ≡ row.attempt + 1))
        → IsWithin c row'
    within (inl e) = (omega (arith, e), omega (arith, e))
    within (inr (lt, e)) = (omega (arith, e), omega (arith, e, step same))

module _ (hmac : String → String → String) (decimal : ℕ → String) (error_text : Error → String)
    (c : Config) where
  -- The attempts of a log that has been tried at least once never pass MaxAttempts by a call of
  -- settle, whatever the endpoint answers and the statement does, where each row is within
  -- MaxAttempts and a row of the log has as many attempts as the log. The call ends without a panic.
  pub attempts_bounded :
      (now : Time) (m : Meets) (wl : WebhookLog) (logs : List WebhookLog)
      → All (λ row. (row.attempt ≤ c.max_attempts) × Follows row wl) logs
      → 1 ≤ wl.attempt
      → wl.attempt ≤ c.max_attempts
      → Ensures
          (settle hmac decimal error_text c now m wl logs)
          (All (λ row. row.attempt ≤ c.max_attempts))
  attempts_bounded now m wl logs v one below =
      settle-All hmac decimal error_text c now m wl logs one v
        (λ row row' same change (high, step). bounded row row' change.1 high (step same))
        λ row (high, step). high
    where
      bounded :
          (row row' : WebhookLog)
          → (row'.attempt ≡ wl.attempt)
            ⊎ ((wl.attempt < c.max_attempts) × (row'.attempt ≡ row.attempt + 1))
          → row.attempt ≤ c.max_attempts
          → row.attempt ≡ wl.attempt
          → row'.attempt ≤ c.max_attempts
      bounded row row' (inl e) high step = omega (arith, e)
      bounded row row' (inr (lt, e)) high step = omega (arith, e, step)

  pub with_request-Ensures :
      (Q : List WebhookLog → Type 0) (r : Request) (o : Outcome (List WebhookLog))
      → Ensures o Q
      → Ensures (with_request hmac decimal error_text r o) (λ x. Q x.0)
  unfolding with_request
  with_request-Ensures Q r (returns logs) h = h
  with_request-Ensures Q r (fails e) h = h
  with_request-Ensures Q r panics h = h
  with_request-Ensures Q r overflows h = h

  retry_webhook-InStep :
      (m : Meets) (wl : WebhookLog) (due logs : List WebhookLog)
      → Answers m.endpoint
      → IsWithin c wl
      → All (Apart wl) due
      → All (InStep c (wl ∷ due)) logs
      → Ensures (retry_webhook hmac decimal error_text c m wl logs) (λ r. All (InStep c due) r.0)
  unfolding retry_webhook retry_to
  retry_webhook-InStep m wl due logs a within apart v = answered m.endpoint a
    where
      settled : Ensures (settle hmac decimal error_text c m.clock m wl logs) (All (InStep c due))
      settled =
          settle-All hmac decimal error_text c m.clock m wl logs within.0 v
            (λ row row' same change p. row-InStep c wl row row' due within apart same change p)
            λ row (w, (step, steps)). (w, steps)

      answered :
          (o : Outcome WebhookEndpoint)
          → Answers o
          → Ensures (retry_to hmac decimal error_text c m wl logs o) (λ r. All (InStep c due) r.0)
      answered (returns ep) h =
          with_request-Ensures (All (InStep c due))
            (request_of hmac decimal error_text ep wl m.clock) _ settled
      answered (fails e) h = All-mono logs v λ row (w, (step, steps)). (w, steps)
      answered panics h = absurd h
      answered overflows h = absurd h

  -- In a batch of logs with different identifiers, each in step with its row.
  pub retry_all-IsWithin :
      (meets : WebhookLog → Meets) (due logs : List WebhookLog)
      → ((wl : WebhookLog) → Answers (meets wl).endpoint)
      → All (IsWithin c) due
      → IsUnique due
      → All (InStep c due) logs
      → Ensures (retry_all hmac decimal error_text c meets due logs) (λ r. All (IsWithin c) r.0)
  unfolding retry_all
  retry_all-IsWithin meets [] logs a within unique v = All-mono logs v λ row p. p.0
  retry_all-IsWithin meets (wl ∷ due) logs a (w, ws) (apart, unique) v =
      Ensures->>= (λ r. All (InStep c due) r.0) (λ r. All (IsWithin c) r.0)
        (retry_webhook hmac decimal error_text c (meets wl) wl logs) _
        (retry_webhook-InStep (meets wl) wl due logs (a wl) w apart v)
        λ r p.
          Ensures->>= (λ more. All (IsWithin c) more.0) (λ more. All (IsWithin c) more.0)
            (retry_all hmac decimal error_text c meets due r.0) _
            (retry_all-IsWithin meets due r.0 a ws unique p) λ more q. q
