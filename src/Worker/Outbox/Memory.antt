-- ===== src/Worker/Outbox/Memory.antt =====
-- A store for the outbox workers that keeps its rows as internal/repository/outbox.go does, with a
-- clock, and that counts the attempts of an event itself, as MarkFailed of OutboxEvent does. A
-- deletion drops every processed event.
use billing_simulator.Base.{
  ◌≡◌, refl, inl, inr, ◌⊎◌, Bool, true, not, ◌&&◌, ◌==◌, any, keep, arith, none, some, List, [],
  ◌∷◌, Time, Bool-cases,
}
use billing_simulator.Entity.Errors.{returns}
use billing_simulator.Entity.Events.{Uuid}
use billing_simulator.Entity.Outbox.{OutboxEvent, mark_failed}
use billing_simulator.Repository.Table.{update_where}
use billing_simulator.Repository.Outbox.{get_unprocessed}
use billing_simulator.Worker.Outbox.{OutboxPoller}
use billing_simulator.Worker.Outbox.Workers.{IsLawful}

abbrev pub is_processed_row : Uuid → List OutboxEvent → Bool
is_processed_row id rows = any (λ e. e.processed && e.id == id) rows

abbrev on_id : Uuid → (OutboxEvent → OutboxEvent) → List OutboxEvent → List OutboxEvent
on_id id f rows = update_where (λ e. e.id == id) f rows

abbrev pub memory : Time → OutboxPoller (List OutboxEvent)
memory now = record {
  get_unprocessed = λ limit age rows. (get_unprocessed (some now) limit none rows, rows);
  mark_processed = λ id rows.
      (none, on_id id (λ e. record e { processed = true; processed_at = some now }) rows);
  mark_failed = λ id text rows. (none, on_id id (λ e. mark_failed e text now) rows);
  delete_old_processed = λ age rows. (returns 0, keep (λ e. not e.processed) rows);
}

failed_stays :
    (id j : Uuid) (f : OutboxEvent → OutboxEvent) (rows : List OutboxEvent)
    → ((e : OutboxEvent) → (f e).processed ≡ e.processed)
    → ((e : OutboxEvent) → (f e).id ≡ e.id)
    → is_processed_row j (on_id id f rows) ≡ is_processed_row j rows
unfolding update_where
failed_stays id j f [] p q = refl
failed_stays id j f (e ∷ es) p q = ground (arith, p e, q e, failed_stays id j f es p q)

processed_only :
    (id j : Uuid) (f : OutboxEvent → OutboxEvent) (rows : List OutboxEvent)
    → ((e : OutboxEvent) → (f e).id ≡ e.id)
    → is_processed_row j (on_id id f rows) ≡ true
    → (j ≡ id) ⊎ (is_processed_row j rows ≡ true)
unfolding update_where
processed_only id j f [] q h = absurd (ground arith)
processed_only id j f (e ∷ es) q h = elim (Bool-cases (e.id == id)) [
  | inl same ↦ elim (Bool-cases (e.id == j)) [
    | inl mine ↦ inl (ground arith)
    | inr other ↦ elim (processed_only id j f es q (ground (arith, q e, h))) [
      | inl found ↦ inl found
      | inr old ↦ inr (ground (arith, old))
    ]
  ]
  | inr differs ↦ elim (Bool-cases (e.processed && e.id == j)) [
    | inl mine ↦ inr (ground (arith, mine))
    | inr other ↦ elim (processed_only id j f es q (ground (arith, h))) [
      | inl found ↦ inl found
      | inr old ↦ inr (ground (arith, old))
    ]
  ]
]

kept_only :
    (p : OutboxEvent → Bool) (j : Uuid) (rows : List OutboxEvent)
    → is_processed_row j (keep p rows) ≡ true
    → is_processed_row j rows ≡ true
kept_only p j [] h = absurd (ground arith)
kept_only p j (e ∷ es) h = ground (arith, kept_only p j es)

pub memory-IsLawful : (now : Time) → IsLawful (memory now) is_processed_row
unfolding mark_failed
memory-IsLawful now = record {
  selected_only = λ limit age j rows h. h;
  failed_keeps = λ id j text rows.
      failed_stays id j (λ e. mark_failed e text now) rows (λ e. refl) (λ e. refl);
  processed_one = λ id j rows h.
      processed_only id j (λ e. record e { processed = true; processed_at = some now }) rows
        (λ e. refl) h;
  deleted_only = λ age j rows h. kept_only (λ e. not e.processed) j rows h;
}
