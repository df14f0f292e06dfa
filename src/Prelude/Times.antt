-- ===== src/Prelude/Times.antt =====
-- Instants and durations of Go's `time`, as nanoseconds. An instant counts from the zero
-- `time.Time`, so `IsZero` is a test for 0.
use Prim.Native.Nat.{ℕ}
use mathlib.Core.Bool.{Bool}
use network_enricher.Prelude.Tests.{ltb, ◌==◌}

abbrev pub Time : Type 0
Time = ℕ

abbrev pub Duration : Type 0
Duration = ℕ

abbrev pub before : Time → Time → Bool
before a b = ltb a b

abbrev pub after : Time → Time → Bool
after a b = ltb b a

abbrev pub is_zero : Time → Bool
is_zero t = t == 0
