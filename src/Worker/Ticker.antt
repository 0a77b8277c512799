-- ===== src/Worker/Ticker.antt =====
-- internal/worker: the loops of Start, which wait in a select for a tick, for the end of their context,
-- or for Stop. What the select finds is a list of signals, in the order in which they are taken.
pub mod Rounds
pub mod Due
pub mod Retries
use billing_simulator.Base.{◌≡◌, refl, ℕ, suc, Bool, true, false, List, [], ◌∷◌}
use billing_simulator.Entity.Errors.{Outcome, returns, fails, panics, overflows}

-- A case of the select
pub data Signal : Type 0 where
  context_done stop_requested tick : Signal

-- How `Start` goes on: it waits for the next signal, has returned, or has panicked.
pub data Progress : Type 0 where
  waiting stopped crashed : Progress

-- `Stop`: closing the channel a second time panics.
unfoldable pub stop : Bool → Outcome Bool
stop true = panics
stop false = returns true

-- How Start goes on where no round ends it: it returns at the first signal that is no tick.
unfoldable pub end_of : List Signal → Progress
end_of [] = waiting
end_of (context_done ∷ signals) = stopped
end_of (stop_requested ∷ signals) = stopped
end_of (tick ∷ signals) = end_of signals

module _ {S : Type 0} where
  -- A panic in a round ends the process, and an error is logged.
  unfoldable pub after_round : {A : Type 0} → Outcome A × S → (S → Progress × S) → Progress × S
  after_round (returns a, s) rest = rest s
  after_round (fails e, s) rest = rest s
  after_round (panics, s) rest = (crashed, s)
  after_round (overflows, s) rest = (crashed, s)

  -- `Start`, of a worker whose rounds are numbered.
  unfoldable pub run_ticks :
      {A : Type 0} → (ℕ → S → Outcome A × S) → ℕ → List Signal → S → Progress × S
  unfolding after_round
  run_ticks round n [] s = (waiting, s)
  run_ticks round n (context_done ∷ signals) s = (stopped, s)
  run_ticks round n (stop_requested ∷ signals) s = (stopped, s)
  run_ticks round n (tick ∷ signals) s =
      after_round (round n s) λ s'. run_ticks round (suc n) signals s'

  -- A round returns, and leaves a state that has the property.
  abbrev pub Keeps : {A : Type 0} → (S → Type 0) → Outcome A × S → Type 0
  Keeps P (returns a, s) = P s
  Keeps P (fails e, s) = ⊥
  Keeps P (panics, s) = ⊥
  Keeps P (overflows, s) = ⊥

  after_round-Keeps :
      {A : Type 0} (P : S → Type 0) (r : Outcome A × S) (rest : S → Progress × S) (end : Progress)
      → Keeps P r
      → ((s : S) → P s → ((rest s).0 ≡ end) × P (rest s).1)
      → ((after_round r rest).0 ≡ end) × P (after_round r rest).1
  unfolding after_round
  after_round-Keeps P (returns a, s) rest end h k = k s h
  after_round-Keeps P (fails e, s) rest end h k = absurd h
  after_round-Keeps P (panics, s) rest end h k = absurd h
  after_round-Keeps P (overflows, s) rest end h k = absurd h

  -- Where each round keeps a property, only a signal ends the loop, and the property is kept.
  pub run_ticks-Keeps :
      {A : Type 0} (P : S → Type 0) (round : ℕ → S → Outcome A × S)
      → ((n : ℕ) (s : S) → P s → Keeps P (round n s))
      → (n : ℕ) (signals : List Signal) (s : S) → P s
      → ((run_ticks round n signals s).0 ≡ end_of signals) × P (run_ticks round n signals s).1
  unfolding run_ticks end_of
  run_ticks-Keeps P round keeps n [] s h = (refl, h)
  run_ticks-Keeps P round keeps n (context_done ∷ signals) s h = (refl, h)
  run_ticks-Keeps P round keeps n (stop_requested ∷ signals) s h = (refl, h)
  run_ticks-Keeps P round keeps n (tick ∷ signals) s h =
      after_round-Keeps P (round n s) _ (end_of signals) (keeps n s h)
        λ s'. run_ticks-Keeps P round keeps (suc n) signals s'
