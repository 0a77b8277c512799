-- ===== src/Base/Instant.antt =====
-- The package time: an instant is its count of nanoseconds since 1970 in UTC (instants before
-- that are not represented), a duration a count of nanoseconds in an int64. The sources convert
-- every instant to UTC before it is stored, so `UTC()` is the identity here. Calendar arithmetic
-- (`AddDate`) is in Calendar.
use Prim.Native.Nat.{ℕ, ◌+◌, ◌-◌, ◌*◌, ◌<◌, ◌≤◌}
use mathlib.Core.Bool.{Bool}
use mathlib.Core.Path.{◌≡◌}
use native.Mathlib.Omega.{arith}
use billing_simulator.Base.Compare.{ltb, leb, if◌then◌else◌}
use billing_simulator.Base.Int64.{ℤ, pos, negsuc, pos_part, neg_part, int64_half}

abbrev pub Time : Type 0
Time = ℕ

abbrev pub Duration : Type 0
Duration = ℤ

abbrev pub second : ℕ
second = 1000000000

abbrev pub day : ℕ
day = 86400 * second

-- `t.After(u)`
abbrev pub after : Time → Time → Bool
after t u = ltb u t

-- `t.Add(d)`
unfoldable pub add_duration : Time → Duration → Time
add_duration t d = t + pos_part d - neg_part d

-- The magnitude of `t.Sub(u)`.
abbrev pub distance : Time → Time → ℕ
distance t u = (t - u) + (u - t)

pub add_duration-pos : (t n : ℕ) → add_duration t (pos n) ≡ t + n
unfolding add_duration
add_duration-pos t n = omega arith

-- `t.Sub(u)`, which stops at the least and the greatest duration.
unfoldable pub sub_time : Time → Time → Duration
sub_time t u =
    if leb u t
    then pos (if ltb (t - u) int64_half then t - u else int64_half - 1)
    else negsuc ((if leb (u - t) int64_half then u - t else int64_half) - 1)

-- A duration between two instants that fits leads from the one to the other.
pub add_duration-sub_time :
    (t u later : Time)
    → t < u + int64_half
    → u < t + int64_half
    → u ≤ later
    → add_duration later (sub_time t u) ≡ t + (later - u)
unfolding add_duration sub_time
add_duration-sub_time t u later h k l = ground arith
