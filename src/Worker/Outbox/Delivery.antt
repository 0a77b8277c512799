-- ===== src/Worker/Outbox/Delivery.antt =====
-- internal/worker/outbox_worker.go: what the workers together have handed on.
use billing_simulator.Base.{
  ℕ, ◌≡◌, refl, sym, ◌∙◌, subst, ◌⊎◌, inl, inr, ap, String, Bool, true, false, ◌==◌, any, arith,
  Option, List, [], ◌∷◌, ◌++◌, All, All-append, Bool-cases,
}
use billing_simulator.Entity.Errors.{Error}
use billing_simulator.Entity.Events.{Uuid}
use billing_simulator.Entity.Outbox.{OutboxEvent}
use billing_simulator.Service.Notification.{handle_domain_event}
use billing_simulator.Worker.Outbox.{
  OutboxPoller, OutboxProcessorConfig, Answers, Handled, Mark, as_processed, as_failed,
  handle_event, handle_for, extract_customer_id, mark, mark_of, clean_up,
}
use billing_simulator.Worker.Outbox.Workers.{
  IsLawful, Stage, waits, takes, marks, Pool, at_stage, is_accepted, was_accepted, Step, poll,
  poll_fails, handle, mark_next, leave, clean, Reach, stay, next,
}

any-append_left {ℓ} :
    {A : Type ℓ} (p : A → Bool) (xs ys : List A) → any p xs ≡ true → any p (xs ++ ys) ≡ true
any-append_left p [] ys h = absurd (ground arith)
any-append_left p (x ∷ xs) ys h = ground (arith, any-append_left p xs ys)

any-append_last {ℓ} :
    {A : Type ℓ} (p : A → Bool) (xs : List A) (y : A) → p y ≡ true → any p (xs ++ y ∷ []) ≡ true
any-append_last p [] y h = ground arith
any-append_last p (x ∷ xs) y h = ground (arith, any-append_last p xs y h)

module _ (unmarshal : String → Error ⊎ Option Uuid) (error_text : Error → String) where
  -- A call was made for the customer that the payload of its event names.
  abbrev pub IsForItsCustomer : Handled → Type 0
  IsForItsCustomer h = extract_customer_id unmarshal error_text h.event ≡ inr h.customer

  handle_event-log :
      (a : Answers) (e : OutboxEvent) (log : List Handled) (id : Uuid)
      → was_accepted id log ≡ true
      → was_accepted id (handle_event unmarshal error_text a e log).1 ≡ true
  unfolding handle_event handle_for
  handle_event-log a e log id h =
      elim (extract_customer_id unmarshal error_text e)
        as (λ r. was_accepted id (handle_for unmarshal error_text a e r log).1 ≡ true) [
          | inl error ↦ h
          | inr customer ↦ any-append_left (is_accepted id) log _ h
        ]

  handle_for-accepts :
      (a : Answers) (e : OutboxEvent) (r : Error ⊎ Uuid) (log : List Handled)
      → (handle_for unmarshal error_text a e r log).0 ≡ as_processed
      → was_accepted e.id (handle_for unmarshal error_text a e r log).1 ≡ true
  unfolding handle_for mark_of
  handle_for-accepts a e (inl error) log h = absurd (ground arith)
  handle_for-accepts a e (inr customer) log h =
      any-append_last (is_accepted e.id) log _
        (ground (arith, h, handle_domain_event a.kafka a.webhook e.event_type customer e.payload))

  handle_for-All :
      (a : Answers) (e : OutboxEvent) (r : Error ⊎ Uuid) (log : List Handled)
      → extract_customer_id unmarshal error_text e ≡ r
      → All IsForItsCustomer log
      → All IsForItsCustomer (handle_for unmarshal error_text a e r log).1
  unfolding handle_for
  handle_for-All a e (inl error) log q h = h
  handle_for-All a e (inr customer) log q h = All-append IsForItsCustomer log _ h (q, tt)

  handle_event-All :
      (a : Answers) (e : OutboxEvent) (log : List Handled)
      → All IsForItsCustomer log
      → All IsForItsCustomer (handle_event unmarshal error_text a e log).1
  unfolding handle_event
  handle_event-All a e log h =
      handle_for-All a e (extract_customer_id unmarshal error_text e) log refl h

  handling-accepts :
      (a : Answers) (e e' : OutboxEvent) (es es' : List OutboxEvent) (log : List Handled)
      → marks (handle_event unmarshal error_text a e log).0 e es ≡ marks as_processed e' es'
      → was_accepted e'.id (handle_event unmarshal error_text a e log).1 ≡ true
  unfolding handle_event
  handling-accepts a e e' es es' log h =
      let same : e ≡ e' = ground (arith, h) in
      subst (λ x. was_accepted x.id (handle_event unmarshal error_text a e log).1 ≡ true) same
        (handle_for-accepts a e (extract_customer_id unmarshal error_text e) log
          (ground (arith, h)))

  module _ {S : Type 0} (outbox : OutboxPoller S) (c : OutboxProcessorConfig)
      (is_processed : Uuid → S → Bool) (lawful : IsLawful outbox is_processed) (start : S) where
    -- Every event that is processed, but for those that were so from the start, has been accepted,
    -- and so has each that a worker is about to mark as processed.
    abbrev Inv : Pool S → Type 0
    Inv p =
        ((id : Uuid)
          → is_processed id p.store ≡ true
          → (was_accepted id p.log ≡ true) ⊎ (is_processed id start ≡ true))
        × ((k : ℕ) (e : OutboxEvent) (es : List OutboxEvent)
            → p.stage k ≡ marks as_processed e es
            → was_accepted e.id p.log ≡ true)
        × All IsForItsCustomer p.log

    mark-adds :
        (m : Mark) (e : OutboxEvent) (s : S) (log : List Handled)
        → (m ≡ as_processed → was_accepted e.id log ≡ true)
        → ((id : Uuid)
            → is_processed id s ≡ true
            → (was_accepted id log ≡ true) ⊎ (is_processed id start ≡ true))
        → (id : Uuid) → is_processed id (mark outbox m e s) ≡ true
        → (was_accepted id log ≡ true) ⊎ (is_processed id start ≡ true)
    unfolding mark
    mark-adds as_processed e s log h k id q = elim (lawful.processed_one e.id id s q) [
      | inl mine ↦ inl (subst (λ i. was_accepted i log ≡ true) (sym mine) (h refl))
      | inr old ↦ k id old
    ]
    mark-adds (as_failed text) e s log h k id q =
        k id (sym (lawful.failed_keeps e.id id text s) ∙ q)

    -- A worker that moves on leaves the others where they are.
    others_stay :
        (k : ℕ) (st : Stage) (stage : ℕ → Stage) (P : OutboxEvent → Type 0)
        → ((e : OutboxEvent) (es : List OutboxEvent) → st ≡ marks as_processed e es → P e)
        → ((j : ℕ) (e : OutboxEvent) (es : List OutboxEvent)
            → stage j ≡ marks as_processed e es
            → P e)
        → (j : ℕ) (e : OutboxEvent) (es : List OutboxEvent)
        → at_stage k st stage j ≡ marks as_processed e es
        → P e
    others_stay k st stage P own rest j e es q = elim (Bool-cases (k == j)) [
      | inl same ↦ own e es (ground (arith, q, same))
      | inr other ↦ rest j e es (ground (arith, q, other))
    ]

    move_keeps : {p q : Pool S} → Inv p → Step unmarshal error_text outbox c p q → Inv q
    unfolding clean_up
    move_keeps {p} (h, k, l) (poll_fails i idle) =
        (λ id q. h id (lawful.selected_only c.batch_size c.min_age id p.store q), k, l)
    move_keeps {p} (h, k, l) (poll i es idle got) = (
      λ id q. h id (lawful.selected_only c.batch_size c.min_age id p.store q),
      others_stay i (takes es) p.stage (λ e. was_accepted e.id p.log ≡ true)
          (λ e es' q. absurd (ground (arith, q))) k,
      l,
    )
    move_keeps {p} (h, k, l) (handle i a e es here) = (
      λ id q. elim (h id q) [
        | inl accepted ↦ inl (handle_event-log a e p.log id accepted)
        | inr old ↦ inr old
      ],
      others_stay i (marks (handle_event unmarshal error_text a e p.log).0 e es) p.stage
          (λ e'. was_accepted e'.id (handle_event unmarshal error_text a e p.log).1 ≡ true)
          (λ e' es' q. handling-accepts a e e' es es' p.log q)
          (λ j e' es' q. handle_event-log a e p.log e'.id (k j e' es' q)),
      handle_event-All a e p.log l,
    )
    move_keeps {p} (h, k, l) (mark_next i m e es here) = (
      mark-adds m e p.store p.log (λ q. k i e es (here ∙ ap (λ x. marks x e es) q)) h,
      others_stay i (takes es) p.stage (λ e'. was_accepted e'.id p.log ≡ true)
          (λ e' es' q. absurd (ground (arith, q))) k,
      l,
    )
    move_keeps {p} (h, k, l) (leave i es here) = (
      h,
      others_stay i waits p.stage (λ e. was_accepted e.id p.log ≡ true)
          (λ e es' q. absurd (ground (arith, q))) k,
      l,
    )
    move_keeps {p} (h, k, l) clean =
        (λ id q. h id (lawful.deleted_only c.retention_period id p.store q), k, l)

    fresh : {A : Type 0} {b : Bool} → A ⊎ (b ≡ true) → b ≡ false → A
    fresh (inl a) h = a
    fresh (inr q) h = absurd (ground (arith, q, h))

    reach_keeps : {p q : Pool S} → Inv p → Reach unmarshal error_text outbox c p q → Inv q
    reach_keeps h stay = h
    reach_keeps h (next r s) = move_keeps (reach_keeps h r) s

    -- However many workers there are and however their steps interleave, with each other and with the
    -- cleanup, whatever the sender and the webhook service answer, whatever fails, and whenever the
    -- workers are ended: over a store that keeps the laws of IsLawful, each event that is processed,
    -- and was not so when they started, has been accepted by HandleDomainEvent, in a call that
    -- returned no error; and every call was made for the customer that its event's payload names.
    pub processed_were_accepted :
        (p : Pool S)
        → Reach unmarshal error_text outbox c
            (record { store = start; log = []; stage = λ k. waits })
            p
        → ((id : Uuid)
            → is_processed id p.store ≡ true
            → is_processed id start ≡ false
            → was_accepted id p.log ≡ true)
          × All IsForItsCustomer p.log
    processed_were_accepted p r =
        let (h, k, l) = reach_keeps (λ id q. inr q, λ k e es q. absurd (ground (arith, q)), tt) r in
        (λ id q new. fresh (h id q) new, l)
