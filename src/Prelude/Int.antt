-- ===== src/Prelude/Int.antt =====
-- Go's `int` where it may be negative, and instants moved by it.
use Prim.Native.Nat.{ℕ, suc, ◌+◌, ◌-◌, ◌/◌}
use mathlib.Core.Bool.{Bool, true, false}
use network_enricher.Prelude.Tests.{ltb}
use network_enricher.Prelude.Times.{Time}

-- `negsuc n` is -(n + 1).
pub data ℤ : Type 0 where
  pos : ℕ → ℤ
  negsuc : ℕ → ℤ

abbrev pub is_positive : ℤ → Bool
is_positive (pos n) = ltb 0 n
is_positive (negsuc n) = false

abbrev pub is_negative : ℤ → Bool
is_negative (pos n) = false
is_negative (negsuc n) = true

-- `t.Add(d / 2)` and `t.Add(-(d / 2))`; the quotient is cut towards zero.
abbrev pub add_half : Time → ℤ → Time
add_half t (pos n) = t + n / 2
add_half t (negsuc n) = t - suc n / 2

abbrev pub sub_half : Time → ℤ → Time
sub_half t (pos n) = t - n / 2
sub_half t (negsuc n) = t + suc n / 2
