-- ===== src/Platform/Backoff.antt =====
-- pkg/storage/postgres, its transaction, and pkg/kafka: the delays between attempts, which are int64
-- counts of nanoseconds. The number that `rand.Int64N` draws is an input; it panics where its bound is
-- not positive, as the doubled delay is that is 0, negative or has wrapped.
use billing_simulator.Base.{
  ℕ, zero, suc, ◌*◌, ◌/◌, ◌%◌, ◌<◌, ◌≡◌, refl, true, ℤ, pos, negsuc, pos_part, neg_part, sub_ℕ,
  wrap, ltb_ℤ, leb_ℤ, Duration, arith, Bool-cases, inl, inr, if◌then◌else◌,
}
use billing_simulator.Entity.Errors.{Outcome, returns, fails, panics, overflows}

-- `d * 2`
abbrev pub twice : Duration → Duration
twice d = wrap (sub_ℕ (pos_part d * 2) (neg_part d * 2))

-- `d / 2`, which goes towards 0.
abbrev pub half : Duration → Duration
half (pos n) = pos (n / 2)
half (negsuc n) = sub_ℕ 0 (suc n / 2)

-- The next delay: doubled, until it reaches half of the longest.
unfoldable pub next_delay : Duration → Duration → Duration
next_delay longest backoff = if ltb_ℤ backoff (half longest) then twice backoff else longest

-- `rand.Int64N`
draw_below : ℤ → ℕ → Outcome ℕ
draw_below (pos zero) roll = panics
draw_below (pos (suc n)) roll = returns (roll % suc n)
draw_below (negsuc n) roll = panics

limited : Duration → Outcome ℕ → Outcome Duration
limited longest (returns n) = returns (if leb_ℤ (pos n) longest then pos n else longest)
limited longest (fails e) = fails e
limited longest panics = panics
limited longest overflows = overflows

-- `min(time.Duration(rand.Int64N(int64(currentBackoff*2))), MaxRetryDelay)`
unfoldable pub draw_delay : Duration → Duration → ℕ → Outcome Duration
unfolding limited draw_below
draw_delay longest backoff roll = limited longest (draw_below (twice backoff) roll)

-- A delay that is positive and can be doubled: it is below 2 ^ 62 nanoseconds.
abbrev pub IsDelay : Duration → Type 0
IsDelay (pos n) = (0 < n) × (n < 4611686018427387904)
IsDelay (negsuc n) = ⊥

pub next_delay-IsDelay :
    (longest backoff : Duration)
    → IsDelay longest
    → IsDelay backoff
    → IsDelay (next_delay longest backoff)
unfolding next_delay
next_delay-IsDelay (pos m) (pos b) (h, k) (p, q) =
    elim (Bool-cases (ltb_ℤ (pos b) (half (pos m)))) [
      | inl e ↦ rw e (ground (arith, e, h, k, p))
      | inr e ↦ rw e (h, k)
    ]
next_delay-IsDelay (pos m) (negsuc b) h k = absurd k
next_delay-IsDelay (negsuc m) backoff h k = absurd h

twice_exact : (b : ℕ) → b < 4611686018427387904 → twice (pos b) ≡ pos (b * 2)
twice_exact b h = ground (arith, h)

limited-within :
    (longest : Duration) (n roll : ℕ)
    → 0 < n
    → (d : Duration) × (limited longest (draw_below (pos n) roll) ≡ returns d)
      × (leb_ℤ d longest ≡ true)
unfolding limited draw_below
limited-within longest zero roll h = absurd (omega arith)
limited-within longest (suc n) roll h = elim (Bool-cases (leb_ℤ (pos (roll % suc n)) longest)) [
  | inl e ↦ (pos (roll % suc n), rw e refl, e)
  | inr e ↦ (longest, rw e refl, ground arith)
]

-- Behind such a delay the draw does not panic, and what is waited is not longer than the longest.
pub draw_delay-within :
    (longest backoff : Duration) (roll : ℕ)
    → IsDelay backoff
    → (d : Duration) × (draw_delay longest backoff roll ≡ returns d) × (leb_ℤ d longest ≡ true)
unfolding draw_delay
draw_delay-within longest (pos b) roll (h, k) =
    rw (twice_exact b k) (limited-within longest (b * 2) roll (omega (arith, h)))
draw_delay-within longest (negsuc b) roll h = absurd h
