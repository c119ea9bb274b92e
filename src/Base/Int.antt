-- ===== src/Base/Int.antt =====
-- Go's `int` and `int64` where a value may be negative, with the tests that the program makes.
use Prim.Native.Nat.{ℕ, suc, ◌+◌, ◌-◌}
use mathlib.Core.Bool.{Bool, true, false}
use sroiaaa.Base.Tests.{ltb, ◌==◌, if◌then◌else◌}

-- `negsuc n` is -(n + 1).
pub data ℤ : Type 0 where
  pos : ℕ → ℤ
  negsuc : ℕ → ℤ

abbrev pub is_neg : ℤ → Bool
is_neg (pos n) = false
is_neg (negsuc n) = true

-- `z == n`, `n < z` and `z < n` at a natural number n.
abbrev pub eq_nat : ℤ → ℕ → Bool
eq_nat (pos m) n = m == n
eq_nat (negsuc m) n = false

abbrev pub above : ℤ → ℕ → Bool
above (pos m) n = ltb n m
above (negsuc m) n = false

abbrev pub below : ℤ → ℕ → Bool
below (pos m) n = ltb m n
below (negsuc m) n = true

-- The value of a number that is not negative.
abbrev pub to_nat : ℤ → ℕ
to_nat (pos n) = n
to_nat (negsuc n) = 0

-- The sum of a number that is not negative and one that is.
abbrev add_below : ℕ → ℕ → ℤ
add_below a b = if ltb b a then pos (a - suc b) else negsuc (b - a)

infixl 30 ◌+ℤ◌
unfoldable pub ◌+ℤ◌ : ℤ → ℤ → ℤ
pos a +ℤ pos b = pos (a + b)
pos a +ℤ negsuc b = add_below a b
negsuc a +ℤ pos b = add_below b a
negsuc a +ℤ negsuc b = negsuc (suc (a + b))

unfoldable pub greater : ℤ → ℤ → Bool
greater (pos a) (pos b) = ltb b a
greater (pos a) (negsuc b) = true
greater (negsuc a) (pos b) = false
greater (negsuc a) (negsuc b) = ltb a b
