-- ===== src/Worker/WebhookRetry/Identity.antt =====
-- internal/worker/webhook_retry.go: a round of the worker keeps the identifiers of the table apart.
use billing_simulator.Base.{
  ℕ, ◌≡◌, refl, String, Bool, Option, none, some, List, [], ◌∷◌, leb, leb→le, All, ℤ, any,
  Bool-cases, inl, inr, Time, if◌then◌else◌, ◌≤◌,
}
use billing_simulator.Entity.Errors.{
  Outcome, returns, fails, panics, overflows, Error, data_not_found, Ensures, Ensures->>=,
}
use billing_simulator.Entity.WebhookEndpoint.{WebhookEndpoint}
use billing_simulator.Entity.WebhookLog
use billing_simulator.Entity.WebhookLog.{WebhookLog}
use billing_simulator.Repository.Table.{update_or}
use billing_simulator.Repository.Table.Pairwise.{update_where-Pairwise}
use billing_simulator.Repository.WebhookLogs.{has_id, set_outcome, set_failed}
use billing_simulator.Worker.WebhookRetry.{
  Config, Meets, is_success, settle, schedule, or_unchanged, retry_webhook, retry_all, retry_to,
  request_of,
}
use billing_simulator.Worker.WebhookRetry.Schedule.{backoff_returns, settle-exhausted}
use billing_simulator.Worker.WebhookRetry.Attempts.{
  Apart, IsUnique, Answers, IsWithin, with_request-Ensures,
}

statement-IsUnique :
    (p : WebhookLog → Bool) (f : WebhookLog → WebhookLog) (fault : Option Error)
    (logs : List WebhookLog)
    → ((row : WebhookLog) → (f row).id ≡ row.id)
    → IsUnique logs
    → IsUnique (or_unchanged logs (update_or data_not_found p f fault logs))
unfolding update_or
statement-IsUnique p f (some e) logs same h = h
statement-IsUnique p f none logs same h = elim (Bool-cases (any p logs)) [
  | inl e ↦ rw e (update_where-Pairwise Apart p f logs apart h)
  | inr e ↦ rw e h
]
  where
    changed : (x : WebhookLog) → (if p x then f x else x).id ≡ x.id
    changed x = elim (Bool-cases (p x)) [ inl e ↦ rw e (same x) | inr e ↦ rw e refl ]

    apart : (x y : WebhookLog) → Apart x y → Apart (if p x then f x else x) (if p y then f y else y)
    apart x y q = rw (changed x, changed y) q

module _ (hmac : String → String → String) (decimal : ℕ → String) (error_text : Error → String)
    (c : Config) where
  schedule-IsUnique :
      (now : Time) (m : Meets) (wl : WebhookLog) (logs : List WebhookLog) (b : Outcome ℤ)
      (delay : ℤ)
      → b ≡ returns delay
      → IsUnique logs
      → Ensures (schedule hmac decimal error_text wl now m logs b) IsUnique
  unfolding schedule set_failed
  schedule-IsUnique now m wl logs b delay e h =
      rw e (statement-IsUnique (has_id wl.id) _ m.fault logs (λ row. refl) h)

  settle-IsUnique :
      (now : Time) (m : Meets) (wl : WebhookLog) (logs : List WebhookLog)
      → 1 ≤ wl.attempt
      → IsUnique logs
      → Ensures (settle hmac decimal error_text c now m wl logs) IsUnique
  unfolding settle set_outcome WebhookLog.mark_delivered
  settle-IsUnique now m wl logs one h = elim (Bool-cases (is_success m.response)) [
    | inl s ↦ rw s (statement-IsUnique (has_id wl.id) _ m.fault logs (λ row. refl) h)
    | inr s ↦ elim (Bool-cases (leb c.max_attempts wl.attempt)) [
      | inl e ↦ rw (settle-exhausted hmac decimal error_text c now m wl logs s (leb→le _ _ e)) h
      | inr e ↦ rw (s, e) (schedule-IsUnique now m wl logs _ _ (backoff_returns wl.attempt one).1 h)
    ]
  ]

  retry_to-IsUnique :
      (m : Meets) (wl : WebhookLog) (logs : List WebhookLog) (o : Outcome WebhookEndpoint)
      → Answers o
      → 1 ≤ wl.attempt
      → IsUnique logs
      → Ensures (retry_to hmac decimal error_text c m wl logs o) (λ r. IsUnique r.0)
  unfolding retry_to
  retry_to-IsUnique m wl logs (returns ep) a one h =
      with_request-Ensures hmac decimal error_text c IsUnique
        (request_of hmac decimal error_text ep wl m.clock) _
        (settle-IsUnique m.clock m wl logs one h)
  retry_to-IsUnique m wl logs (fails e) a one h = h
  retry_to-IsUnique m wl logs panics a one h = absurd a
  retry_to-IsUnique m wl logs overflows a one h = absurd a

  -- The loop of a batch keeps the identifiers of the table apart.
  pub retry_all-IsUnique :
      (meets : WebhookLog → Meets) (due logs : List WebhookLog)
      → ((wl : WebhookLog) → Answers (meets wl).endpoint)
      → All (IsWithin c) due
      → IsUnique logs
      → Ensures (retry_all hmac decimal error_text c meets due logs) (λ r. IsUnique r.0)
  unfolding retry_all retry_webhook
  retry_all-IsUnique meets [] logs a w h = h
  retry_all-IsUnique meets (wl ∷ due) logs a (w, ws) h =
      Ensures->>= (λ r. IsUnique r.0) (λ r. IsUnique r.0)
        (retry_webhook hmac decimal error_text c (meets wl) wl logs) _
        (retry_to-IsUnique (meets wl) wl logs (meets wl).endpoint (a wl) w.0 h)
        λ r p.
          Ensures->>= (λ more. IsUnique more.0) (λ more. IsUnique more.0)
            (retry_all hmac decimal error_text c meets due r.0) _
            (retry_all-IsUnique meets due r.0 a ws p) λ more q. q
