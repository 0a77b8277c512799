-- ===== src/Worker/Cleanup/Outbox.antt =====
-- internal/worker/cleanup.go over DeleteOldProcessed of internal/repository/outbox.go, as
-- internal/app/app.go joins them.
use billing_simulator.Base.{
  ℕ, suc, ◌≡◌, ◌≢◌, refl, ◌∙◌, Bool, true, not, ◌&&◌, Option, none, some, List, [], ◌∷◌, ◌++◌, keep,
  Time, Duration, arith, Bool-cases, pos, second, ◌*◌, ◌-◌, pos_part,
}
use billing_simulator.Entity.Errors.{Outcome, returns, fails, panics, overflows, Error}
use billing_simulator.Entity.Outbox.{OutboxEvent}
use billing_simulator.Repository.Outbox.{delete_old_processed, is_old}
use billing_simulator.Worker.Ticker.{
  Signal, context_done, stop_requested, tick, Progress, waiting, crashed,
}
use billing_simulator.Worker.Cleanup.{CleanupWorker, Line, start, go_on_from, after_tick, report}

-- The rows of the outbox, with the time and the error of each statement to come.
pub record Table : Type 0 where
  pub rows : List OutboxEvent
  pub statements : ℕ → Time × Option Error
  pub made : ℕ

counted : Table → Outcome (List OutboxEvent × ℕ) → Outcome ℕ × Table
counted t (returns (rows, n)) = (returns n, record t { rows = rows; made = suc t.made })
counted t (fails e) = (fails e, record t { made = suc t.made })
counted t panics = (panics, t)
counted t overflows = (overflows, t)

-- `DeleteOldProcessed`, with the time before which events are old
unfoldable pub delete_old : Duration → Table → Outcome ℕ × Table
unfolding counted delete_old_processed
delete_old retention t =
    let (now, fault) = t.statements t.made in
    counted t (delete_old_processed (now - pos_part retention) fault t.rows)

-- The worker `outboxCleanup` of New in internal/app/app.go
abbrev pub outbox_cleanup : CleanupWorker Table
outbox_cleanup = record { retention = pos (24 * 3600 * second); cleanup_fn = delete_old }

abbrev pub waiting_events : List OutboxEvent → List OutboxEvent
waiting_events rows = keep (λ e. not e.processed) rows

keep-keep :
    {A : Type 0} (p q : A → Bool) (xs : List A)
    → ((x : A) → p x ≡ true → q x ≡ true)
    → keep p (keep q xs) ≡ keep p xs
keep-keep p q [] h = refl
keep-keep p q (x ∷ xs) h = ground (arith, Bool-cases (q x), h x, keep-keep p q xs h)

delete_old-waiting :
    (retention : Duration) (t : Table)
    → waiting_events (delete_old retention t).1.rows ≡ waiting_events t.rows
unfolding delete_old
delete_old-waiting retention t = counted-waiting (t.statements t.made).1
  where
    counted-waiting :
        (fault : Option Error)
        → waiting_events
            (counted t (
              delete_old_processed
                ((t.statements t.made).0 - pos_part retention)
                fault
                t.rows)).1.rows
          ≡ waiting_events t.rows
    counted-waiting (some e) = refl
    counted-waiting none =
        keep-keep (λ e. not e.processed)
          (λ e.
            not
              (e.processed && is_old e.processed_at ((t.statements t.made).0 - pos_part retention)))
          t.rows (λ e h. ground (arith, h))

delete_old-quiet :
    (retention : Duration) (t : Table) → after_tick (delete_old retention t).0 ≡ waiting
unfolding delete_old after_tick
delete_old-quiet retention t = counted-quiet (t.statements t.made).1
  where
    counted-quiet :
        (fault : Option Error)
        → after_tick
            (counted t
              (delete_old_processed ((t.statements t.made).0 - pos_part retention) fault t.rows)).0
          ≡ waiting
    counted-quiet (some e) = refl
    counted-quiet none = refl

-- The loop after an answer without a panic.
go_on-lem :
    {S : Type 0} (w : CleanupWorker S) (lines : List Line) (r : Outcome ℕ) (s : S)
    (rest : List Line → S → Progress × List Line × S)
    → after_tick r ≡ waiting
    → go_on_from w lines (r, s) rest ≡ rest (lines ++ report r) s
unfolding go_on_from after_tick
go_on-lem w lines (returns n) s rest h = refl
go_on-lem w lines (fails e) s rest h = refl
go_on-lem w lines panics s rest h = absurd (ground (arith, h))
go_on-lem w lines overflows s rest h = absurd (ground (arith, h))

-- However often the cleanup of the outbox has its tick, whenever it is stopped and whatever fails, it
-- does not panic, and every event that is not processed stays in the outbox, in its place and as it is.
pub cleanup-keeps_waiting :
    (signals : List Signal) (lines : List Line) (t : Table)
    → (waiting_events (start outbox_cleanup signals lines t).2.rows ≡ waiting_events t.rows)
      × ((start outbox_cleanup signals lines t).0 ≢ crashed)
unfolding start
cleanup-keeps_waiting [] lines t = (refl, cc)
cleanup-keeps_waiting (context_done ∷ signals) lines t = (refl, cc)
cleanup-keeps_waiting (stop_requested ∷ signals) lines t = (refl, cc)
cleanup-keeps_waiting (tick ∷ signals) lines t =
    let answer = delete_old outbox_cleanup.retention t in
    let (same, quiet) = cleanup-keeps_waiting signals (lines ++ report answer.0) answer.1 in
    rw
      (go_on-lem outbox_cleanup lines answer.0 answer.1
        (λ lines' s'. start outbox_cleanup signals lines' s')
        (delete_old-quiet outbox_cleanup.retention t))
      (same ∙ delete_old-waiting outbox_cleanup.retention t, quiet)
