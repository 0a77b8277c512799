-- ===== src/Repository/Outbox/Retries.antt =====
-- When an event of the outbox is handed out again.
use billing_simulator.Base.{
  zero, suc, wrap, pos, Bool-cases, inl, inr, leb→le, add_duration, ℕ, ◌+◌, ◌*◌, ◌^◌, ◌≡◌, ◌≤◌,
  refl, true, false, not, ◌&&◌, String, some, Bool, keep, All-mono, none, List, All, any, leb, ◌==◌,
  second, Time, arith, add_duration-pos,
}
use billing_simulator.Entity.Errors.{Ensures, panics}
use billing_simulator.Entity.Events.{Uuid}
use billing_simulator.Entity.Outbox.{OutboxEvent}
use billing_simulator.Repository.Table.{update_or, update_where-updated, sort_by, keep-All-also}
use billing_simulator.Repository.Table.Sorted.{take-All, sort_by-All}
use billing_simulator.Repository.Outbox.{
  is_unprocessed, set_failed, mark_processed, mark_failed, get_unprocessed,
}

-- The delays after the attempts that are handed out again
delay_table :
    (n now : ℕ) → n ≤ 5 → add_duration now (wrap (pos (2 ^ n * second))) ≡ now + 2 ^ n * second
delay_table zero now h = add_duration-pos now _
delay_table (suc zero) now h = add_duration-pos now _
delay_table (suc (suc zero)) now h = add_duration-pos now _
delay_table (suc (suc (suc zero))) now h = add_duration-pos now _
delay_table (suc (suc (suc (suc zero)))) now h = add_duration-pos now _
delay_table (suc (suc (suc (suc (suc zero))))) now h = add_duration-pos now _
delay_table (suc (suc (suc (suc (suc (suc n)))))) now h = absurd (omega arith)

failed_row :
    (message : String) (n : ℕ) (now later : Time) (e : OutboxEvent)
    → is_unprocessed later (set_failed message n now e)
      ≡ (not e.processed && (leb n 5 && leb (now + 2 ^ n * second) later))
unfolding is_unprocessed set_failed
failed_row message n now later e = elim (Bool-cases (leb n 5)) [
  | inl h ↦ rw (h, delay_table n now (leb→le n 5 h)) refl
  | inr h ↦ rw h refl
]

processed_row :
    (later now : Time) (e : OutboxEvent)
    → is_unprocessed later (record e { processed = true; processed_at = some now }) ≡ false
unfolding is_unprocessed
processed_row later now e = refl

not_it :
    (later : Time) (e : OutboxEvent) (b : Bool)
    → (b ≡ true → is_unprocessed later e ≡ false)
    → is_unprocessed later e ≡ true
    → b ≡ false
not_it later e true p q = absurd (ground (arith, p refl, q))
not_it later e false p q = refl

waited :
    (later : Time) (e : OutboxEvent) (b : Bool)
    → is_unprocessed later e ≡ (not e.processed && b)
    → is_unprocessed later e ≡ true
    → b ≡ true
waited later e b p q = ground (arith, p, q)

-- What GetUnprocessed hands out of rows of which each has a property: such rows, which its WHERE clause
-- admits.
handed_out :
    (P : OutboxEvent → Type 0) (later : Time) (limit : ℕ) (rows : List OutboxEvent)
    → All P rows
    → Ensures
        (get_unprocessed (some later) limit none rows)
        (All (λ e. P e × (is_unprocessed later e ≡ true)))
unfolding get_unprocessed
handed_out P later limit rows h =
    let Q : OutboxEvent → Type 0 = λ e. P e × (is_unprocessed later e ≡ true) in
    let found = keep (is_unprocessed later) rows in
    let by_age = sort_by (λ e. e.created_at) found in
    take-All Q limit _ (
      sort_by-All Q _ by_age
        (sort_by-All Q (λ e. e.created_at) found (keep-All-also P (is_unprocessed later) rows h)))

-- The repository needs a clock for this, which NewOutboxRepository does not set: without one,
-- MarkFailed and GetUnprocessed panic. With one: an event whose row exists and that MarkProcessed
-- marks is not in what GetUnprocessed returns, at any time and with any limit. One that MarkFailed
-- marks with attempt n passes the WHERE clause of GetUnprocessed where it was not processed, n is 5 at
-- most, and 2 ^ n seconds have passed, and only then; so GetUnprocessed returns it only then.
pub marked_events_wait :
    (id : Uuid) (message : String) (n limit : ℕ) (now later : Time) (rows : List OutboxEvent)
    → any (λ e. e.id == id) rows ≡ true
    → (mark_failed none id message n none rows ≡ panics)
      × (get_unprocessed none limit none rows ≡ panics)
      × Ensures (mark_processed id now none rows) (λ marked.
        Ensures (get_unprocessed (some later) limit none marked) (All (λ e. (e.id == id) ≡ false)))
      × Ensures (mark_failed (some now) id message n none rows) (λ marked.
        All
          (λ e.
            (e.id == id) ≡ true
            → is_unprocessed later e
              ≡ (not e.processed && (leb n 5 && leb (now + 2 ^ n * second) later)))
          marked
        × Ensures
            (get_unprocessed (some later) limit none marked)
            (All (λ e. (e.id == id) ≡ true → (leb n 5 && leb (now + 2 ^ n * second) later) ≡ true)))
unfolding mark_processed mark_failed update_or get_unprocessed
marked_events_wait id message n limit now later rows a =
    let done =
      update_where-updated (λ e. is_unprocessed later e ≡ false) (λ e. e.id == id)
        (λ e. record e { processed = true; processed_at = some now }) rows
        (λ e h. processed_row later now e) in
    let failed =
      update_where-updated
        (λ e.
          is_unprocessed later e
          ≡ (not e.processed && (leb n 5 && leb (now + 2 ^ n * second) later)))
        (λ e. e.id == id) (set_failed message n now) rows
        (λ e h. failed_row message n now later e) in
    rw a (
      refl,
      refl,
      All-mono _ (handed_out _ later limit _ done) (λ e (p, q). not_it later e (e.id == id) p q),
      (
        failed,
        All-mono _ (handed_out _ later limit _ failed) λ e (p, q) same. waited later e _ (p same) q,
      ),
    )
