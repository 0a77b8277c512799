-- ===== src/Service/EventDispatcher/Order.antt =====
-- Which entries Dispatch of internal/service/event_dispatcher.go adds to the outbox.
use mathlib.Core.List.{map-append, append-nil}
use billing_simulator.Base.{
  ℕ, suc, ◌≡◌, refl, sym, ◌∙◌, ap, String, true, Option, none, is_some, List, [], ◌∷◌, ◌++◌, map,
  arith, Option-cases, inl, inr,
}
use billing_simulator.Entity.Errors.{returns, Ensures}
use billing_simulator.Entity.Status.{event_name}
use billing_simulator.Entity.Events.{Uuid, DomainEvent, event_type, aggregate_id}
use billing_simulator.Entity.Outbox.{OutboxEvent, new_outbox_event}
use billing_simulator.Repository.Outbox.{save_batch}
use billing_simulator.Service.Call.{Meets}
use billing_simulator.Service.EventDispatcher.{Dto, to_dto, outbox_events, dispatch}

-- What an entry of the outbox says of its event: the name of its type, and its aggregate.
abbrev pub label : DomainEvent → String × Uuid
label event = (event_name (event_type event), aggregate_id event)

abbrev pub entry_label : OutboxEvent → String × Uuid
entry_label e = (e.event_type, e.aggregate_id)

save_batch-eq : (es rows : List OutboxEvent) → save_batch es none rows ≡ returns (rows ++ es)
unfolding save_batch
save_batch-eq [] rows = ap returns (sym (append-nil rows))
save_batch-eq (e ∷ es) rows = refl

module _ (marshal : Dto → Option String) (m : Meets)
    (total : (dto : Dto) → is_some (marshal dto) ≡ true) where
  outbox_events-eq :
      (reading n : ℕ) (events : List DomainEvent)
      → map entry_label (outbox_events marshal m reading n events) ≡ map label events
  unfolding outbox_events new_outbox_event
  outbox_events-eq reading n [] = refl
  outbox_events-eq reading n (event ∷ events) = elim (Option-cases (marshal (to_dto event))) [
    | inl e ↦ absurd (ground (arith, e, total (to_dto event)))
    | inr (payload, e) ↦
        rw (outbox_events, e)
          (ap (◌∷◌ (label event)) (outbox_events-eq (suc reading) (suc n) events))
  ]

  -- Where every event can be marshalled and the statement does not fail, Dispatch returns. The
  -- entries of the outbox, each read as the name of its type and the identifier of its aggregate,
  -- are then those that it had, followed by one for each event, in the order of the events.
  pub dispatch-appends :
      (reading : ℕ) (events : List DomainEvent) (rows : List OutboxEvent)
      → Ensures
          (dispatch marshal m reading events none rows)
          (λ rows'. map entry_label rows' ≡ map entry_label rows ++ map label events)
  unfolding dispatch
  dispatch-appends reading events rows =
      rw (dispatch, save_batch-eq (outbox_events marshal m reading 0 events) rows)
        (map-append entry_label rows (outbox_events marshal m reading 0 events)
          ∙ ap (λ l. map entry_label rows ++ l) (outbox_events-eq reading 0 events))
