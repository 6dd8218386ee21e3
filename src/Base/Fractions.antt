-- ===== src/Base/Fractions.antt =====
-- The finite values of a Go float64 that the program keeps: a sign, and a binary fraction.
use Prim.Native.Nat.{ℕ}
use mathlib.Core.Bool.{Bool, false}
use fragments.Base.Tests.{◌==◌}

-- The value is mantissa / 2 ^ scale, below zero if `negative`; so -0.0 differs from 0.0 as data.
pub record Float : Type 0 where
  pub negative : Bool
  pub mantissa : ℕ
  pub scale : ℕ

-- `v == 0` in Go, true of both zeros.
abbrev pub is_zero : Float → Bool
is_zero v = v.mantissa == 0

abbrev pub whole : ℕ → Float
whole n = record { negative = false; mantissa = n; scale = 0 }
