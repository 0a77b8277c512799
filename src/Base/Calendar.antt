-- ===== src/Base/Calendar.antt =====
-- `Time.AddDate` of the package time, in UTC. Go splits an instant into year, month, day and time
-- of day, adds to each, and lets `Date` carry what overflows. Here a year and a month are one
-- number, the months since March of the year 0, so that the leap day is the last of its year.
use Prim.Native.Nat.{ℕ, zero, suc, ◌+◌, ◌-◌, ◌*◌, ◌/◌, ◌%◌, ◌≤◌, ◌<◌}
use mathlib.Core.Path.{◌≡◌}
use native.Mathlib.Nat.{add-suc}
use native.Mathlib.Omega.{arith}
use billing_simulator.Base.Int64.{ℤ, pos, pos_part, neg_part}
use billing_simulator.Base.Instant.{Time, day}

-- The days from 1 March of the year 0 to 1 January 1970.
abbrev epoch : ℕ
epoch = 719468

-- The days from 1 March of the year 0 to the first of a month.
unfoldable pub month_start : ℕ → ℕ
month_start s = let y = s / 12 in 365 * y + y / 4 + y / 400 - y / 100 + (153 * (s % 12) + 2) / 5

-- The year of a cycle of 400 years that holds a day of it.
unfoldable pub year_of_cycle : ℕ → ℕ
year_of_cycle doe = (doe - doe / 1460 + doe / 36524 - doe / 146096) / 365

-- The days of a cycle before a year of it.
unfoldable pub year_start : ℕ → ℕ
year_start yoe = 365 * yoe + yoe / 4 - yoe / 100

-- The month that holds a day.
unfoldable pub month_of : ℕ → ℕ
month_of z =
    let doe = z % 146097 in
    let yoe = year_of_cycle doe in
    12 * (400 * (z / 146097) + yoe) + (5 * (doe - year_start yoe) + 2) / 153

year_of_cycle_lem :
    (doe : ℕ)
    → doe < 146097
    → (year_start (year_of_cycle doe) ≤ doe)
      × (doe ≤ year_start (year_of_cycle doe) + 365)
      × (year_of_cycle doe < 400)
unfolding year_start year_of_cycle
year_of_cycle_lem doe h = (omega arith, omega arith, omega arith)

month_start-suc : (s : ℕ) → month_start s + 28 ≤ month_start (suc s)
unfolding month_start
month_start-suc s = omega arith

month_start_of_year :
    (y m : ℕ)
    → m < 12
    → month_start (12 * y + m) ≡ 365 * y + y / 4 + y / 400 - y / 100 + (153 * m + 2) / 5
unfolding month_start
month_start_of_year y m h = omega arith

cycle_year :
    (era yoe : ℕ)
    → yoe < 400
    → let y = 400 * era + yoe in 365 * y + y / 4 + y / 400 - y / 100 ≡ 146097 * era + year_start yoe
unfolding year_start
cycle_year era yoe h = omega arith

-- The month that holds a day begins no later.
pub month_start-le : (z : ℕ) → month_start (month_of z) ≤ z
unfolding month_of
month_start-le z =
    let doe = z % 146097 in
    let yoe = year_of_cycle doe in
    let mp = (5 * (doe - year_start yoe) + 2) / 153 in
    let bounds = year_of_cycle_lem doe (omega arith) in
    omega (
      arith,
      month_start_of_year (400 * (z / 146097) + yoe) mp (omega (arith, bounds)),
      cycle_year (z / 146097) yoe bounds.2,
      bounds,
    )

month_start_mono : (s k : ℕ) → month_start s + 28 * k ≤ month_start (s + k)
unfolding month_start
month_start_mono s zero = omega arith
month_start_mono s (suc k) =
    rw (add-suc s k) (omega (arith, month_start_mono s k, month_start-suc (s + k)))

-- `t.AddDate(years, months, days)`
unfoldable pub add_date : Time → ℤ → ℤ → ℤ → Time
add_date t years months days =
    let z = t / day + epoch in
    let s = month_of z in
    let s' = s + 12 * pos_part years + pos_part months - 12 * neg_part years - neg_part months in
    let z' = month_start s' + (z - month_start s) + pos_part days - neg_part days in
    (z' - epoch) * day + t % day

-- Days are added exactly.
pub add_date_days : (t n : ℕ) → add_date t (pos 0) (pos 0) (pos n) ≡ t + n * day
unfolding add_date month_start
add_date_days t n = omega (arith, month_start-le (t / day + epoch))

-- A month or more later is at least 28 days later for each month.
pub add_date_months : (t n : ℕ) → t + 28 * n * day ≤ add_date t (pos 0) (pos n) (pos 0)
unfolding add_date month_start
add_date_months t n =
    let z = t / day + epoch in omega (arith, month_start-le z, month_start_mono (month_of z) n)

pub add_date_years : (t n : ℕ) → t + 336 * n * day ≤ add_date t (pos n) (pos 0) (pos 0)
unfolding add_date month_start
add_date_years t n =
    let z = t / day + epoch in
    omega (arith, month_start-le z, month_start_mono (month_of z) (12 * n))
