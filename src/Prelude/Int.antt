-- ===== src/Prelude/Int.antt =====
-- The C type `int`, as a signed integer over the native numbers.
use Prim.Native.Nat.{ℕ, zero, suc, ◌+◌}
use mathlib.Core.Path.{◌≡◌}
use mathlib.Core.Logic.{◌↔◌}
use mathlib.Core.Bool.{Bool, true, false}
use native.Mathlib.Omega.{arith}
use os333_iit_bombay_labs.Prelude.Tests.{◌==◌}

-- `negsuc n` is -(n + 1).
pub data ℤ : Type 0 where
  pos : ℕ → ℤ
  negsuc : ℕ → ℤ

-- The test `a == b` of two ints.
abbrev pub eqb : ℤ → ℤ → Bool
eqb (pos a) (pos b) = a == b
eqb (negsuc a) (negsuc b) = a == b
eqb (pos a) (negsuc b) = false
eqb (negsuc a) (pos b) = false

pub eqb_iff : (a b : ℤ) → (eqb a b ≡ true) ↔ (a ≡ b)
eqb_iff (pos a) (pos b) = ground arith
eqb_iff (negsuc a) (negsuc b) = ground arith
eqb_iff (pos a) (negsuc b) = ground arith
eqb_iff (negsuc a) (pos b) = ground arith

-- `a++` and `a--` of an int that does not overflow.
abbrev pub incr : ℤ → ℤ
incr (pos a) = pos (a + 1)
incr (negsuc zero) = pos 0
incr (negsuc (suc a)) = negsuc a

abbrev pub decr : ℤ → ℤ
decr (pos zero) = negsuc 0
decr (pos (suc a)) = pos a
decr (negsuc a) = negsuc (a + 1)

-- `a <= 0`
abbrev pub not_positive : ℤ → Bool
not_positive (pos a) = a == 0
not_positive (negsuc a) = true
