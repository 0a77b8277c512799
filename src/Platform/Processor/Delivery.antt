-- ===== src/Platform/Processor/Delivery.antt =====
-- pkg/kafka/processor.go: how the processing of a message ends.
use billing_simulator.Base.{ℕ, zero, suc, ◌+◌, ◌<◌, ◌≡◌, true, none, List, [], ◌∷◌, ◌++◌}
use billing_simulator.Platform.Processor.{
  Config, Weather, Action, handled, published, committed, Ending, acknowledged, stopped, dead,
  panicked,
}

-- The calls of the handler from an attempt on, so many.
unfoldable pub tries : ℕ → ℕ → List Action
tries i zero = []
tries i (suc n) = handled i ∷ tries (suc i) n

-- What an ending says of the actions, from attempt `i` on, of which `left` remain.
unfoldable pub Delivered : Config → (ℕ → Weather) → ℕ → ℕ → List Action → Ending → Type 0
unfolding tries
Delivered c weather left i actions (acknowledged k) =
    (n : ℕ) × (k ≡ i + n)
    × (n < left)
    × ((weather k).outcome ≡ none)
    × (actions ≡ tries i (suc n) ++ committed ∷ [])
Delivered c weather left i actions (dead k last) =
    (n : ℕ) × (k ≡ i + n)
    × (n < left)
    × ((weather k).outcome ≡ last)
    × (actions ≡ tries i (suc n) ++ published last c.max_attempts ∷ committed ∷ [])
Delivered c weather left i actions (stopped k) =
    (n : ℕ) × (k ≡ i + n) × (suc n < left) × ((weather k).ends ≡ true) × (actions ≡ tries i (suc n))
Delivered c weather left i actions panicked = ⊥
