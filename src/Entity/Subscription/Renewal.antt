-- ===== src/Entity/Subscription/Renewal.antt =====
-- What Subscription.Renew of internal/entity/subscription.go does to the billing period, and what
-- the invoice that it returns charges for.
use billing_simulator.Base.{
  sub_time, pos_part, neg_part, ltb, false, after, Bool-cases, inl, inr, refl, ◌==◌, if◌then◌else◌,
  ℕ, suc, ◌+◌, ◌-◌, ◌*◌, ◌/◌, ◌≤◌, ◌<◌, ◌≡◌, ◌≢◌, List, some, pos, Time, day, int64_half, arith,
  add_date_days, add_date_months, add_date_years,
}
use billing_simulator.Entity.Errors.{◌>>=◌, Ensures, Ensures->>=, Ensures-mono}
use billing_simulator.Entity.Status.{
  BillingInterval, week, month, year, other_interval, open_, canceled, unpaid,
}
use billing_simulator.Entity.Status
use billing_simulator.Entity.Aggregate.{Raise, Draw, raise_event}
use billing_simulator.Entity.Price.{Price, next_date, next_billing_date}
use billing_simulator.Entity.Invoice.{Invoice}
use billing_simulator.Entity.Subscription.{Subscription, next_period_start, renew, renew_from}

div_bounds : (n p : ℕ) → 0 < p → (p * (n / p) ≤ n) × (n < p * (n / p) + p)
div_bounds n p h = grind arith

nonzero : (n : ℕ) → 0 < n → (n == 0) ≡ false
nonzero n h = ground arith

magnitude_pos : (n : ℕ) → pos_part (pos n) + neg_part (pos n) ≡ n
magnitude_pos n = omega arith

-- A difference, up to the greatest duration.
abbrev capped : ℕ → ℕ
capped n = if ltb n int64_half then n else int64_half - 1

capped_bounds : (n : ℕ) → (capped n ≤ n) × (0 < n → 0 < capped n) × (n < int64_half → capped n ≡ n)
capped_bounds n = elim (Bool-cases (ltb n int64_half)) [
  | inl e ↦ rw e (omega arith, λ h. h, λ h. refl)
  | inr e ↦ rw e (ground (arith, e), λ h. omega arith, λ h. absurd (ground (arith, e, h)))
]

sub_time-later : (t u : Time) → u ≤ t → sub_time t u ≡ pos (capped (t - u))
unfolding sub_time
sub_time-later t u h = ground (arith, h)

-- Whole periods of a size, as many as an overrun holds, do not pass now, and less than one is left.
skipped :
    (end now length size overrun : ℕ)
    → 0 < size
    → size ≤ length
    → overrun ≤ now - end
    → end ≤ now
    → (now < end + int64_half → overrun ≡ now - end)
    → (end ≤ end + size * (overrun / size))
      × (end + size * (overrun / size) ≤ now)
      × (now < end + int64_half → now < end + size * (overrun / size) + length)
skipped end now length size overrun p q r k exact =
    let (low, high) = div_bounds overrun size p in
    (omega arith, omega (arith, low), λ near. omega (arith, high, exact near))

-- A renewal at or after the end of a period that is not empty starts a period that has begun, and
-- that began less than one period ago, where the overrun fits an int64 of nanoseconds: whole periods
-- that were missed are skipped.
pub next_period_start_bounds :
    (start end now : Time)
    → start < end
    → end ≤ now
    → Ensures
        (next_period_start start end now)
        (λ s. (end ≤ s) × (s ≤ now) × (now < end + int64_half → now < s + (end - start)))
unfolding next_period_start
next_period_start_bounds start end now h k =
    let (below, some_size, _) = capped_bounds (end - start) in
    let (low, _, exact) = capped_bounds (now - end) in
    let positive : 0 < capped (end - start) = some_size (omega arith) in
    elim (Bool-cases (after now end)) [
      | inl later ↦
          rw
            (
              later,
              sub_time-later end start (omega arith),
              sub_time-later now end k,
              magnitude_pos (capped (end - start)),
              nonzero (capped (end - start)) positive,
            )
            (skipped end now (end - start) (capped (end - start)) (capped (now - end)) positive
              below low k λ near. exact (omega arith))
      | inr on_time ↦ rw on_time (omega arith, k, λ near. ground (arith, on_time, h, k))
    ]

-- A positive count of any interval leads to a later date, as long as seven times the count fits
-- an int.
pub next_date-after :
    (i : BillingInterval) (n : ℕ) (t : Time)
    → 7 * suc n < int64_half
    → t < next_date i (pos (suc n)) t
unfolding next_date
next_date-after Status.day n t h = omega (arith, add_date_days t (suc n))
next_date-after week n t h = ground (arith, add_date_days t (7 * suc n))
next_date-after month n t h = omega (arith, add_date_months t (suc n))
next_date-after year n t h = omega (arith, add_date_years t (suc n))
next_date-after other_interval n t h = omega (arith, add_date_months t (suc n))

-- The rest of a renewal sets the new period, and writes an invoice over the price's amount.
abbrev pub Renewed : Subscription → Price → Time → Subscription × Invoice → Type 0
Renewed s price start r =
    (r.0.current_period_start ≡ start)
    × (r.0.current_period_end ≡ next_billing_date price start)
    × (r.0.next_billing_at ≡ next_billing_date price start)
    × (r.0.id ≡ s.id)
    × (r.0.status ≡ s.status)
    × (r.1.amount ≡ price.amount)
    × (r.1.amount_remaining ≡ price.amount)
    × (r.1.subscription_id ≡ some s.id)
    × (r.1.period_start ≡ some (next_billing_date price start))
    × (r.1.due_date ≡ some (next_billing_date price start))
    × (r.1.status ≡ open_)
    × (r.1.amount_paid ≡ pos 0)
    × (r.1.attempt_count ≡ 0)

renew_from_lem :
    (d : Draw) (bytes : List ℕ) (s : Subscription) (now : Time) (price : Price) (start : Time)
    → d.bytes ≡ some bytes
    → Ensures (renew_from raise_event d s now price start) (Renewed s price start)
unfolding renew_from
renew_from_lem d bytes s now price start e = ground arith

renew-eq :
    (raise : Raise) (d : Draw) (s : Subscription) (now : Time) (price : Price)
    → s.status ≢ canceled
    → s.status ≢ unpaid
    → renew raise d s now price ≡ (
        next_period_start s.current_period_start s.current_period_end now
        >>= renew_from raise d s now price)
unfolding renew
renew-eq raise d s now price c u = ground arith

pub renew_lem :
    (d : Draw) (bytes : List ℕ) (s : Subscription) (now : Time) (price : Price)
    (Q : Subscription × Invoice → Type 0)
    → d.bytes ≡ some bytes
    → s.status ≢ canceled
    → s.status ≢ unpaid
    → s.current_period_start < s.current_period_end
    → s.current_period_end ≤ now
    → ((start : Time) (r : Subscription × Invoice)
        → s.current_period_end ≤ start
        → start ≤ now
        → (now < s.current_period_end + int64_half
            → now < start + (s.current_period_end - s.current_period_start))
        → Renewed s price start r
        → Q r)
    → Ensures (renew raise_event d s now price) Q
renew_lem d bytes s now price Q e c u p h k = rw (renew-eq raise_event d s now price c u) (
    Ensures->>= _ Q (next_period_start s.current_period_start s.current_period_end now) _
      (next_period_start_bounds s.current_period_start s.current_period_end now p h)
      λ start b.
        Ensures-mono _ Q (renew_from raise_event d s now price start)
          (renew_from_lem d bytes s now price start e) λ r w. k start r b.0 b.1 b.2 w)

-- With the Raise of DomainEvents, a subscription that is neither canceled nor unpaid, on a price
-- for a number of days, whose period is as long as the price's interval, renews at or after the
-- end of its period, by less than 2 ^ 63 nanoseconds: the new period has begun by now, the next
-- billing date is its end, and is still to come.
pub renew-catches_up :
    (d : Draw) (bytes : List ℕ) (s : Subscription) (now : Time) (price : Price) (n : ℕ)
    → d.bytes ≡ some bytes
    → s.status ≢ canceled
    → s.status ≢ unpaid
    → price.interval ≡ Status.day
    → price.interval_count ≡ pos (suc n)
    → s.current_period_end ≡ s.current_period_start + suc n * day
    → s.current_period_end ≤ now
    → now < s.current_period_end + int64_half
    → Ensures (renew raise_event d s now price) (λ r.
      (r.0.current_period_start ≤ now)
      × (now < r.0.current_period_end)
      × (r.0.next_billing_at ≡ r.0.current_period_end))
unfolding next_billing_date next_date
renew-catches_up d bytes s now price n e c u i k p h near =
    renew_lem d bytes s now price _ e c u (omega (arith, p)) h
      λ start r a b l w. ground (arith, l near, add_date_days start (suc n))
