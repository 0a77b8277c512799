-- ===== src/Worker/Outbox/Workers.antt =====
-- internal/worker/outbox_worker.go: the workers side by side. They share the store, and the calls of
-- HandleDomainEvent are listed in the order in which they are made.
use billing_simulator.Base.{
  ℕ, ◌≡◌, ◌⊎◌, String, Bool, true, false, ◌==◌, any, Option, none, some, List, ◌∷◌, Duration,
  if◌then◌else◌,
}
use billing_simulator.Entity.Errors.{returns, Error}
use billing_simulator.Entity.Events.{Uuid}
use billing_simulator.Entity.Outbox.{OutboxEvent}
use billing_simulator.Worker.Outbox.{
  OutboxPoller, OutboxProcessorConfig, Answers, Handled, Mark, handle_event, mark, clean_up,
}

-- What the workers rely on, with the identifiers of the events that are processed: a selection, which
-- may claim rows, adds none, MarkFailed changes none, MarkProcessed adds at most its own, and a
-- deletion adds none.
pub record IsLawful {S : Type 0} (outbox : OutboxPoller S) (is_processed : Uuid → S → Bool)
    : Type 0 where
  pub selected_only :
      (limit : ℕ) (age : Duration) (j : Uuid) (s : S)
      → is_processed j (outbox.get_unprocessed limit age s).1 ≡ true
      → is_processed j s ≡ true
  pub failed_keeps :
      (id j : Uuid) (text : String) (s : S)
      → is_processed j (outbox.mark_failed id text s).1 ≡ is_processed j s
  pub processed_one :
      (id j : Uuid) (s : S)
      → is_processed j (outbox.mark_processed id s).1 ≡ true
      → (j ≡ id) ⊎ (is_processed j s ≡ true)
  pub deleted_only :
      (age : Duration) (j : Uuid) (s : S)
      → is_processed j (outbox.delete_old_processed age s).1 ≡ true
      → is_processed j s ≡ true

-- A worker waits for its tick, is about to handle the events of its batch, or has handled one and is
-- about to mark it.
pub data Stage : Type 0 where
  waits : Stage
  takes : List OutboxEvent → Stage
  marks : Mark → OutboxEvent → List OutboxEvent → Stage

-- The state of the store, the calls of HandleDomainEvent, and the stage of each worker.
pub record Pool (S : Type 0) : Type 0 where
  pub store : S
  pub log : List Handled
  pub stage : ℕ → Stage

abbrev pub at_stage : ℕ → Stage → (ℕ → Stage) → ℕ → Stage
at_stage k st stage j = if k == j then st else stage j

-- A call of HandleDomainEvent for an event, which it has answered without an error.
abbrev pub is_accepted : Uuid → Handled → Bool
is_accepted id h = elim h.error [ none ↦ h.event.id == id | some _ ↦ false ]

abbrev pub was_accepted : Uuid → List Handled → Bool
was_accepted id log = any (is_accepted id) log

module _ (unmarshal : String → Error ⊎ Option Uuid) (error_text : Error → String) {S : Type 0}
    (outbox : OutboxPoller S) (c : OutboxProcessorConfig) where
  -- What can happen: a worker that waits gets a batch, or an error; one takes the next event of its batch and
  -- hands it to HandleDomainEvent; marks the event that it has handled; leaves off, with its batch at
  -- its end or with the context; and the cleanup has its tick.
  pub data Step : Pool S → Pool S → Type 0 where
    poll :
        {p : Pool S} (k : ℕ) (es : List OutboxEvent)
        → p.stage k ≡ waits
        → (outbox.get_unprocessed c.batch_size c.min_age p.store).0 ≡ returns es
        → Step p (record p {
          store = (outbox.get_unprocessed c.batch_size c.min_age p.store).1;
          stage = at_stage k (takes es) p.stage;
        })
    poll_fails :
        {p : Pool S} (k : ℕ)
        → p.stage k ≡ waits
        → Step p (record p { store = (outbox.get_unprocessed c.batch_size c.min_age p.store).1 })
    handle :
        {p : Pool S} (k : ℕ) (a : Answers) (e : OutboxEvent) (es : List OutboxEvent)
        → p.stage k ≡ takes (e ∷ es)
        → Step p (record p {
          log = (handle_event unmarshal error_text a e p.log).1;
          stage = at_stage k (marks (handle_event unmarshal error_text a e p.log).0 e es) p.stage;
        })
    mark_next :
        {p : Pool S} (k : ℕ) (m : Mark) (e : OutboxEvent) (es : List OutboxEvent)
        → p.stage k ≡ marks m e es
        → Step p
            (record p { store = mark outbox m e p.store; stage = at_stage k (takes es) p.stage })
    leave :
        {p : Pool S} (k : ℕ) (es : List OutboxEvent)
        → p.stage k ≡ takes es
        → Step p (record p { stage = at_stage k waits p.stage })
    clean : {p : Pool S} → Step p (record p { store = clean_up outbox c p.store })

  pub data Reach (p : Pool S) : Pool S → Type 0 where
    stay : Reach p p
    next : {q r : Pool S} → Reach p q → Step q r → Reach p r
