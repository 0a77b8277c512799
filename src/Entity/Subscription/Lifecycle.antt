-- ===== src/Entity/Subscription/Lifecycle.antt =====
-- The status of a subscription under the operations of internal/entity/subscription.go, and the
-- events that they raise.
use mathlib.Core.List.{map-append}
use billing_simulator.Base.{
  ℕ, ◌≡◌, ◌≢◌, ◌⊎◌, sym, ◌∙◌, List, ◌++◌, [], ◌∷◌, true, some, ◌≤◌, ◌<◌, Time, arith, map,
}
use billing_simulator.Entity.Errors.{returns, fails, Ensures, subscription_already_canceled}
use billing_simulator.Entity.Status.{
  active, past_due, canceled, unpaid, subscription_canceled, subscription_updated,
  SubscriptionCancelMode, cancel_immediate, cancel_at_period_end,
}
use billing_simulator.Entity.Events.{DomainEvent, event_type}
use billing_simulator.Entity.Aggregate.{Raise, Draw, raise_event}
use billing_simulator.Entity.Price.{Price}
use billing_simulator.Entity.Subscription.{
  Subscription, cancel, renew, mark_subscription_paid, mark_past_due, mark_canceled,
}
use billing_simulator.Entity.Subscription.Renewal.{renew_lem}

-- Whatever Raise does, a subscription that was canceled at once is canceled from that time on,
-- can be neither canceled again nor renewed, and MarkCanceled leaves it as it is.
pub cancel_is_final :
    (raise : Raise) (d : Draw) (s t : Subscription) (mode : SubscriptionCancelMode)
    (now later : Time) (price : Price)
    → cancel raise s cancel_immediate now ≡ returns t
    → (t.status ≡ canceled)
      × (t.canceled_at ≡ some now)
      × (cancel raise t mode later ≡ fails subscription_already_canceled)
      × (renew raise d t later price ≡ fails subscription_already_canceled)
      × (mark_canceled raise t later ≡ returns t)
unfolding cancel renew mark_canceled
cancel_is_final raise d s t mode now later price h = ground arith

canceled_later :
    (raise : Raise) (s t : Subscription) (now : Time)
    → cancel raise s cancel_at_period_end now ≡ returns t
    → (t.at_period_end ≡ true)
      × (t.status ≡ s.status)
      × (s.status ≢ canceled)
      × (t.current_period_start ≡ s.current_period_start)
      × (t.current_period_end ≡ s.current_period_end)
unfolding cancel
canceled_later raise s t now h = ground arith

-- With the Raise of DomainEvents, a subscription that is canceled at the end of its period, and is
-- neither canceled nor unpaid, still renews when the period has ended: it keeps its status, and
-- the renewal writes an invoice over the price.
pub cancel_at_period_end-renews :
    (d : Draw) (bytes : List ℕ) (s t : Subscription) (now later : Time) (price : Price)
    → cancel raise_event s cancel_at_period_end now ≡ returns t
    → d.bytes ≡ some bytes
    → s.status ≢ unpaid
    → s.current_period_start < s.current_period_end
    → s.current_period_end ≤ later
    → (t.at_period_end ≡ true)
      × Ensures
          (renew raise_event d t later price)
          (λ r. (r.0.status ≡ s.status) × (r.1.amount ≡ price.amount))
cancel_at_period_end-renews d bytes s t now later price h e u p l =
    let kept = canceled_later raise_event s t now h in
    (
      kept.0,
      renew_lem d bytes t later price _ e (λ q. kept.2 (sym kept.1 ∙ q)) (λ q. u (sym kept.1 ∙ q))
          (omega (arith, kept)) (omega (arith, kept)) λ start r a b w k. ground arith,
    )

raised_one :
    (xs : List DomainEvent) (e : DomainEvent)
    → map event_type (xs ++ e ∷ []) ≡ map event_type xs ++ event_type e ∷ []
raised_one xs e = map-append event_type xs (e ∷ [])

-- With the Raise of DomainEvents, each of these calls that changes the status raises exactly one
-- event, of the type that names the change, behind those raised before; a call that finds the
-- status already set raises none and changes nothing.
pub marks_raise_one_event :
    (s : Subscription) (now : Time)
    → Ensures (mark_subscription_paid raise_event s now) (λ t.
      (t.status ≡ active)
      × (t.id ≡ s.id)
      × (((s.status ≡ active) × (t ≡ s))
          ⊎ (map event_type t.root.domain_events
              ≡ map event_type s.root.domain_events ++ subscription_updated ∷ [])))
      × Ensures (mark_past_due raise_event s now) (λ t.
        (t.status ≡ past_due)
        × (t.id ≡ s.id)
        × (((s.status ≡ past_due) × (t ≡ s))
            ⊎ (map event_type t.root.domain_events
                ≡ map event_type s.root.domain_events ++ subscription_updated ∷ [])))
      × Ensures (mark_canceled raise_event s now) (λ t.
        (t.status ≡ canceled)
        × (t.id ≡ s.id)
        × (((s.status ≡ canceled) × (t ≡ s))
            ⊎ (map event_type t.root.domain_events
                ≡ map event_type s.root.domain_events ++ subscription_canceled ∷ [])))
unfolding mark_subscription_paid mark_past_due mark_canceled raise_event event_type
marks_raise_one_event s now = grind (arith, raised_one)
