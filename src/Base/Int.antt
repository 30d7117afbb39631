-- ===== src/Base/Int.antt =====
-- Signed integers over the native numbers, and the wrap-around of a 32-bit `int`.
use Prim.Native.Nat.{ℕ, suc, ◌+◌, ◌-◌, ◌%◌, ◌^◌, ◌≤◌}
use mathlib.Core.Path.{◌≡◌}
use mathlib.Core.Bool.{Bool, true, false}
use native.Mathlib.Omega.{arith}
use dcom.Base.Tests.{leb, ltb, ◌==◌, if◌then◌else◌}

-- `negsuc n` is -(n + 1).
pub data ℤ : Type 0 where
  pos : ℕ → ℤ
  negsuc : ℕ → ℤ

abbrev pub pos_part : ℤ → ℕ
pos_part (pos n) = n
pos_part (negsuc n) = 0

abbrev pub neg_part : ℤ → ℕ
neg_part (pos n) = 0
neg_part (negsuc n) = suc n

-- a - b, as an integer.
abbrev pub sub_ℕ : ℕ → ℕ → ℤ
sub_ℕ a b = if leb b a then pos (a - b) else negsuc (b - a - 1)

infixl 65 ◌+ℤ◌
infix 50 ◌≤ℤ◌
unfoldable pub ◌+ℤ◌ : ℤ → ℤ → ℤ
a +ℤ b = sub_ℕ (pos_part a + pos_part b) (neg_part a + neg_part b)

abbrev pub ◌≤ℤ◌ : ℤ → ℤ → Type 0
a ≤ℤ b = pos_part a + neg_part b ≤ pos_part b + neg_part a

-- The bit pattern of an `int`, and the `int` of a bit pattern.
abbrev pub to_bits : ℤ → ℕ
to_bits a = (pos_part a + 2 ^ 32 - neg_part a % 2 ^ 32) % 2 ^ 32

abbrev pub of_bits : ℕ → ℤ
of_bits w = if ltb w (2 ^ 31) then pos w else negsuc (2 ^ 32 - w - 1)

-- A 32-bit `int` or `long` of the Windows ABI.
abbrev pub IsInt : ℤ → Type 0
IsInt a = (negsuc (2 ^ 31 - 1) ≤ℤ a) × (a ≤ℤ pos (2 ^ 31 - 1))

-- Does the integer fit an `int`?
abbrev pub is_int : ℤ → Bool
is_int (pos n) = leb n (2 ^ 31 - 1)
is_int (negsuc n) = leb n (2 ^ 31 - 1)

abbrev pub eq_ℤ : ℤ → ℤ → Bool
eq_ℤ (pos a) (pos b) = a == b
eq_ℤ (pos a) (negsuc b) = false
eq_ℤ (negsuc a) (pos b) = false
eq_ℤ (negsuc a) (negsuc b) = a == b

pub is_int_of : (a : ℤ) → IsInt a → is_int a ≡ true
is_int_of (pos n) h = ground arith
is_int_of (negsuc n) h = ground arith

pub IsInt-of : (a : ℤ) → is_int a ≡ true → IsInt a
IsInt-of (pos n) h = ground arith
IsInt-of (negsuc n) h = ground arith

unfoldable pub wrap : ℤ → ℤ
wrap a = of_bits (to_bits a)

pub wrap_fits : (a : ℤ) → IsInt a → wrap a ≡ a
unfolding wrap
wrap_fits a h = ground arith

pub wrap-IsInt : (a : ℤ) → IsInt (wrap a)
unfolding wrap
wrap-IsInt a = ground arith
