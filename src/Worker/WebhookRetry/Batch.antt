-- ===== src/Worker/WebhookRetry/Batch.antt =====
-- internal/worker/webhook_retry.go: a whole round of the worker, from the SELECT to the last statement.
use billing_simulator.Base.{
  ℕ, refl, String, Option, none, some, List, [], ◌∷◌, map, take, keep, All, All-mono, All-map,
  arith, Time,
}
use billing_simulator.Entity.Errors.{Outcome, returns, fails, panics, overflows, Error, Ensures}
use billing_simulator.Entity.WebhookLog.{WebhookLog}
use billing_simulator.Repository.Table.{sort_by, keep-All-also}
use billing_simulator.Repository.Table.Sorted.{take-All, sort_by-All}
use billing_simulator.Repository.Table.Pairwise.{
  keep-Pairwise, take-Pairwise, map-Pairwise, sort_by-Pairwise,
}
use billing_simulator.Repository.WebhookLogs.{is_due, scan_pending, get_pending_for_retry}
use billing_simulator.Worker.WebhookRetry.{Config, Meets, retry_all, process_batch}
use billing_simulator.Worker.WebhookRetry.Identity.{retry_all-IsUnique}
use billing_simulator.Worker.WebhookRetry.Attempts.{
  Follows, IsWithin, InStep, Apart, IsUnique, Answers, retry_all-IsWithin,
}

-- What holds of each row, and of what is read of it, holds of each log of a batch.
pending-All :
    (P : WebhookLog → Type 0) (now : Time) (limit : ℕ) (logs : List WebhookLog)
    → ((wl : WebhookLog) → P wl → P (scan_pending wl))
    → All P logs
    → Ensures (get_pending_for_retry now limit none logs) (All P)
unfolding get_pending_for_retry
pending-All P now limit logs scanned h =
    let key : WebhookLog → ℕ = λ wl. wl.next_attempt_at in
    let found = keep (is_due now) logs in
    let sorted = sort_by key found in
    All-map P scan_pending (take limit sorted) (
      All-mono (take limit sorted)
        (take-All P limit sorted (
          sort_by-All P key found
            (All-mono found (keep-All-also P (is_due now) logs h) λ x q. q.0)))
        scanned)

pending-IsUnique :
    (now : Time) (limit : ℕ) (logs : List WebhookLog)
    → IsUnique logs
    → Ensures (get_pending_for_retry now limit none logs) IsUnique
unfolding get_pending_for_retry scan_pending
pending-IsUnique now limit logs h =
    let key : WebhookLog → ℕ = λ wl. wl.next_attempt_at in
    let found = keep (is_due now) logs in
    let sorted = sort_by key found in
    map-Pairwise Apart scan_pending (take limit sorted) (λ x y q. q)
      (take-Pairwise Apart limit sorted (
        sort_by-Pairwise Apart (λ x y q. ground (arith, q)) key found
          (keep-Pairwise Apart (is_due now) logs h)))

-- In a table whose identifiers differ, a row that has a row's identifier is that row.
all_follow : (logs : List WebhookLog) → IsUnique logs → All (λ row. All (Follows row) logs) logs
all_follow [] h = tt
all_follow (wl ∷ logs) (apart, unique) = (
  (λ e. refl, All-mono logs apart λ other q e. absurd (ground (arith, q, e))),
  both logs apart (all_follow logs unique),
)
  where
    both :
        (rows : List WebhookLog)
        → All (Apart wl) rows
        → All (λ row. All (Follows row) logs) rows
        → All (λ row. All (Follows row) (wl ∷ logs)) rows
    both [] a f = tt
    both (row ∷ rows) (a, as') (f, fs) = ((λ e. absurd (ground (arith, a, e)), f), both rows as' fs)

Ensures-both :
    {A : Type 0} (P Q : A → Type 0) (o : Outcome A)
    → Ensures o P
    → Ensures o Q
    → Ensures o (λ a. P a × Q a)
Ensures-both P Q (returns a) h k = (h, k)
Ensures-both P Q (fails e) h k = h
Ensures-both P Q panics h k = h
Ensures-both P Q overflows h k = h

-- The identifiers of a table differ, and each of its logs is within MaxAttempts.
abbrev pub IsInOrder : Config → List WebhookLog → Type 0
IsInOrder c logs = IsUnique logs × All (IsWithin c) logs

-- A round of the webhook worker ends without a panic, and never takes a log past MaxAttempts: where
-- the identifiers of a table differ, each of its logs has been tried at least once and MaxAttempts
-- times at most, and the lookups of endpoints return or fail, all of this holds of the table
-- afterwards, whatever is due, the endpoints answer and the statements do.
pub process_batch-IsInOrder :
    (hmac : String → String → String) (decimal : ℕ → String) (error_text : Error → String)
    (c : Config) (now : Time) (fault : Option Error) (meets : WebhookLog → Meets)
    (logs : List WebhookLog)
    → ((wl : WebhookLog) → Answers (meets wl).endpoint)
    → IsInOrder c logs
    → Ensures (process_batch hmac decimal error_text c now fault meets logs) (λ r. IsInOrder c r.0)
unfolding process_batch get_pending_for_retry scan_pending
process_batch-IsInOrder hmac decimal error_text c now (some e) meets logs a h = h
process_batch-IsInOrder hmac decimal error_text c now none meets logs a (unique, h) =
    let due =
      map scan_pending
        (take c.batch_size (sort_by (λ wl. wl.next_attempt_at) (keep (is_due now) logs))) in
    let within = pending-All (IsWithin c) now c.batch_size logs (λ wl w. w) h in
    Ensures-both (λ r. IsUnique r.0) (λ r. All (IsWithin c) r.0)
      (retry_all hmac decimal error_text c meets due logs)
      (retry_all-IsUnique hmac decimal error_text c meets due logs a within unique)
      (retry_all-IsWithin hmac decimal error_text c meets due logs a within
        (pending-IsUnique now c.batch_size logs unique) (in_step logs h (all_follow logs unique)))
  where
    in_step :
        (rows : List WebhookLog)
        → All (IsWithin c) rows
        → All (λ row. All (Follows row) logs) rows
        → All
            (InStep c (
              map scan_pending
                (take c.batch_size (sort_by (λ wl. wl.next_attempt_at) (keep (is_due now) logs)))))
            rows
    in_step [] w f = tt
    in_step (row ∷ rows) (w, ws) (f, fs) =
        ((w, pending-All (Follows row) now c.batch_size logs (λ wl q. q) f), in_step rows ws fs)
