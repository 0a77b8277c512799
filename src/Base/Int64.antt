-- ===== src/Base/Int64.antt =====
-- Go's int64: signed integers whose sums and differences wrap at 64 bits.
use Prim.Native.Nat.{ℕ, suc, ◌+◌, ◌-◌, ◌%◌, ◌<◌, ◌≤◌}
use mathlib.Core.Path.{◌≡◌}
use mathlib.Core.Bool.{Bool, false}
use native.Mathlib.Omega.{arith}
use billing_simulator.Base.Compare.{ltb, leb, ◌==◌, if◌then◌else◌}

-- `negsuc n` is -(n + 1).
pub data ℤ : Type 0 where
  pos : ℕ → ℤ
  negsuc : ℕ → ℤ

abbrev pub pos_part : ℤ → ℕ
pos_part (pos n) = n
pos_part (negsuc n) = 0

abbrev pub neg_part : ℤ → ℕ
neg_part (pos n) = 0
neg_part (negsuc n) = suc n

-- a - b, as an integer.
abbrev pub sub_ℕ : ℕ → ℕ → ℤ
sub_ℕ a b = if leb b a then pos (a - b) else negsuc (b - a - 1)

-- 2 ^ 63 and 2 ^ 64.
abbrev pub int64_half : ℕ
int64_half = 9223372036854775808

abbrev pub int64_mod : ℕ
int64_mod = 18446744073709551616

-- The bit pattern of an integer, read as an unsigned number.
abbrev pub to_bits : ℤ → ℕ
to_bits (pos n) = n % int64_mod
to_bits (negsuc n) = int64_mod - 1 - n % int64_mod

abbrev pub of_bits : ℕ → ℤ
of_bits b = if ltb b int64_half then pos b else negsuc (int64_mod - 1 - b)

abbrev pub wrap : ℤ → ℤ
wrap a = of_bits (to_bits a)

unfoldable pub add_64 : ℤ → ℤ → ℤ
add_64 a b = wrap (sub_ℕ (pos_part a + pos_part b) (neg_part a + neg_part b))

unfoldable pub sub_64 : ℤ → ℤ → ℤ
sub_64 a b = wrap (sub_ℕ (pos_part a + neg_part b) (neg_part a + pos_part b))

abbrev pub ltb_ℤ : ℤ → ℤ → Bool
ltb_ℤ a b = ltb (pos_part a + neg_part b) (pos_part b + neg_part a)

abbrev pub leb_ℤ : ℤ → ℤ → Bool
leb_ℤ a b = leb (pos_part a + neg_part b) (pos_part b + neg_part a)

abbrev pub eqb_ℤ : ℤ → ℤ → Bool
eqb_ℤ (pos a) (pos b) = a == b
eqb_ℤ (negsuc a) (negsuc b) = a == b
eqb_ℤ _ _ = false

-- Below the wrap, sums and differences of non-negative values are the exact ones.
pub add_64_exact : (a b : ℕ) → a + b < int64_half → add_64 (pos a) (pos b) ≡ pos (a + b)
unfolding add_64
add_64_exact a b h = ground arith

pub sub_64_exact : (a b : ℕ) → b ≤ a → a < int64_half → sub_64 (pos a) (pos b) ≡ pos (a - b)
unfolding sub_64
sub_64_exact a b h k = ground arith
