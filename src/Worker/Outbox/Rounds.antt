-- ===== src/Worker/Outbox/Rounds.antt =====
-- internal/worker/outbox_worker.go: a whole round of a worker is a sequence of its steps.
use billing_simulator.Base.{
  ℕ, suc, ◌≡◌, refl, ◌⊎◌, inl, inr, String, Bool, arith, Option, List, [], ◌∷◌, Bool-cases,
}
use billing_simulator.Entity.Errors.{Error, Outcome, returns, fails, panics, overflows}
use billing_simulator.Entity.Outbox.{OutboxEvent}
use billing_simulator.Worker.Outbox.{
  OutboxPoller, OutboxProcessorConfig, Answers, Handled, handle_event, mark, process_each,
  process_found, process_outbox_batch,
}
use billing_simulator.Worker.Outbox.Workers.{
  Stage, waits, takes, marks, Pool, at_stage, poll, poll_fails, handle, mark_next, Reach, stay,
  next,
}

module _ (unmarshal : String → Error ⊎ Option ℕ) (error_text : Error → String) {S : Type 0}
    (outbox : OutboxPoller S) (c : OutboxProcessorConfig) where
  after :
      {p q r : Pool S}
      → Reach unmarshal error_text outbox c p q
      → Reach unmarshal error_text outbox c q r
      → Reach unmarshal error_text outbox c p r
  after a stay = a
  after a (next b s) = next (after a b) s

  -- From a pool to what a sequential run leaves of it, at some stages of the workers.
  abbrev pub Runs : (ℕ → Stage) → List Handled × S → List Handled × S → Type 0
  Runs stage w w' =
      (stage' : ℕ → Stage) × Reach unmarshal error_text outbox c
        (record { store = w.1; log = w.0; stage = stage })
        (record { store = w'.1; log = w'.0; stage = stage' })

  at_stage_self : (k : ℕ) (st : Stage) (stage : ℕ → Stage) → at_stage k st stage k ≡ st
  at_stage_self k st stage = ground (arith, st)

  process_each-Runs :
      (ended : ℕ → Bool) (a : ℕ → Answers) (n k : ℕ) (es : List OutboxEvent) (stage : ℕ → Stage)
      (w : List Handled × S)
      → stage k ≡ takes es
      → Runs stage w (process_each unmarshal error_text outbox ended a n es w)
  unfolding process_each
  process_each-Runs ended a n k [] stage w h = (stage, stay)
  process_each-Runs ended a n k (e ∷ es) stage (log, s) h = elim (Bool-cases (ended n)) [
    | inl over ↦ rw over (stage, stay)
    | inr goes ↦
        let handled = handle_event unmarshal error_text (a n) e log in
        let first = at_stage k (marks handled.0 e es) stage in
        let second = at_stage k (takes es) first in
        let (last, rest) =
          process_each-Runs ended a (suc n) k es second (handled.1, mark outbox handled.0 e s)
            (at_stage_self k (takes es) first) in
        rw goes (
          last,
          after
              (next (next stay (handle k (a n) e es h))
                (mark_next k handled.0 e es (at_stage_self k (marks handled.0 e es) stage)))
              rest,
        )
  ]

  -- A round of a worker that waits, `processBatch`, whatever is answered and fails in it and wherever
  -- it is ended, is a sequence of steps of the pool: what is shown of all sequences holds of it.
  pub process_outbox_batch-Runs :
      (ended : ℕ → Bool) (a : ℕ → Answers) (k : ℕ) (stage : ℕ → Stage) (w : List Handled × S)
      → stage k ≡ waits
      → Runs stage w (process_outbox_batch unmarshal error_text outbox c ended a w)
  unfolding process_outbox_batch process_found
  process_outbox_batch-Runs ended a k stage (log, s) h =
      found (outbox.get_unprocessed c.batch_size c.min_age s).0 refl
    where
      after_get : S
      after_get = (outbox.get_unprocessed c.batch_size c.min_age s).1

      found :
          (r : Outcome (List OutboxEvent))
          → (outbox.get_unprocessed c.batch_size c.min_age s).0 ≡ r
          → Runs stage
              (log, s)
              (process_found unmarshal error_text outbox ended a r (log, after_get))
      found (returns es) q =
          let (last, rest) =
            process_each-Runs ended a 0 k es (at_stage k (takes es) stage) (log, after_get)
              (at_stage_self k (takes es) stage) in
          (last, after (next stay (poll k es h q)) rest)
      found (fails e) q = (stage, next stay (poll_fails k h))
      found panics q = (stage, next stay (poll_fails k h))
      found overflows q = (stage, next stay (poll_fails k h))
