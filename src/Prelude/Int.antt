-- ===== src/Prelude/Int.antt =====
-- Go's signed integers as ℤ over the native numbers, and the wrap-around of `int32` written out.
use Prim.Native.Nat.{ℕ, suc, ◌+◌, ◌-◌, ◌*◌, ◌%◌, ◌^◌, ◌≤◌, ◌<◌}
use mathlib.Core.Path.{◌≡◌}
use mathlib.Core.Logic.{◌↔◌}
use mathlib.Core.Bool.{Bool, true}
use mathlib.Core.List.{List, []}
use native.Mathlib.Omega.{arith}
use multiprox.Prelude.Tests.{ltb, leb, eqb, if◌then◌else◌}
use multiprox.Prelude.Lists.{range}

-- `negsuc n` is -(n + 1).
pub data ℤ : Type 0 where
  pos : ℕ → ℤ
  negsuc : ℕ → ℤ

abbrev pub pos_part : ℤ → ℕ
pos_part (pos n) = n
pos_part (negsuc n) = 0

abbrev pub neg_part : ℤ → ℕ
neg_part (pos n) = 0
neg_part (negsuc n) = suc n

-- a - b, as an integer.
abbrev pub sub_ℕ : ℕ → ℕ → ℤ
sub_ℕ a b = if leb b a then pos (a - b) else negsuc (b - a - 1)

infixl 65 ◌-ℤ◌
infixl 70 ◌*ℤ◌
infix 50 ◌≤ℤ◌ ◌<ℤ◌
unfoldable pub ◌-ℤ◌ : ℤ → ℤ → ℤ
a -ℤ b = sub_ℕ (pos_part a + neg_part b) (neg_part a + pos_part b)

unfoldable pub ◌*ℤ◌ : ℤ → ℤ → ℤ
a *ℤ b =
    sub_ℕ (pos_part a * pos_part b + neg_part a * neg_part b)
      (pos_part a * neg_part b + neg_part a * pos_part b)

abbrev pub ◌≤ℤ◌ : ℤ → ℤ → Type 0
a ≤ℤ b = pos_part a + neg_part b ≤ pos_part b + neg_part a

abbrev pub ◌<ℤ◌ : ℤ → ℤ → Type 0
a <ℤ b = pos_part a + neg_part b < pos_part b + neg_part a

abbrev pub ltb_ℤ : ℤ → ℤ → Bool
ltb_ℤ a b = ltb (pos_part a + neg_part b) (pos_part b + neg_part a)

abbrev pub leb_ℤ : ℤ → ℤ → Bool
leb_ℤ a b = leb (pos_part a + neg_part b) (pos_part b + neg_part a)

abbrev pub eqb_ℤ : ℤ → ℤ → Bool
eqb_ℤ a b = eqb (pos_part a + neg_part b) (pos_part b + neg_part a)

pub eqb_ℤ_iff : (a b : ℤ) → (eqb_ℤ a b ≡ true) ↔ (a ≡ b)
eqb_ℤ_iff a b = ground arith

-- Go's `a % 2`, whose sign is that of `a`
abbrev pub rem_two : ℤ → ℤ
rem_two (pos n) = pos (n % 2)
rem_two (negsuc n) = if eqb (suc n % 2) 0 then pos 0 else negsuc 0

-- the 32 low bits, read as a two's complement number
abbrev pub from_word32 : ℕ → ℤ
from_word32 m = if ltb m (2 ^ 31) then pos m else negsuc (2 ^ 32 - 1 - m)

-- the conversion `int32(n)`
unfoldable pub int32 : ℤ → ℤ
int32 (pos n) = from_word32 (n % 2 ^ 32)
int32 (negsuc n) = from_word32 (2 ^ 32 - 1 - n % 2 ^ 32)

-- the values of `int32`
abbrev pub IsInt32 : ℤ → Type 0
IsInt32 a = (pos_part a < 2 ^ 31) × (neg_part a ≤ 2 ^ 31)

abbrev pub mul_int32 : ℤ → ℤ → ℤ
mul_int32 a b = int32 (a *ℤ b)

abbrev pub sub_int32 : ℤ → ℤ → ℤ
sub_int32 a b = int32 (a -ℤ b)

-- Whatever the integer, its conversion is an `int32`.
pub int32-IsInt32 : (a : ℤ) → IsInt32 (int32 a)
unfolding int32
int32-IsInt32 (pos n) = ground arith
int32-IsInt32 (negsuc n) = ground arith

-- A value in range is kept.
pub int32_of_IsInt32 : (a : ℤ) → IsInt32 a → int32 a ≡ a
unfolding int32
int32_of_IsInt32 (pos n) h = ground arith
int32_of_IsInt32 (negsuc n) h = ground arith

-- `for i := int32(0); i < n; i++`
abbrev pub indices : ℤ → List ℕ
indices (pos n) = range n
indices (negsuc n) = []

pub *ℤ_pos : (a b : ℤ) → pos 1 ≤ℤ a → pos 1 ≤ℤ b → pos 1 ≤ℤ a *ℤ b
unfolding ◌*ℤ◌
*ℤ_pos (pos m) (pos n) p q = grind arith
*ℤ_pos (pos m) (negsuc n) p q = absurd (omega arith)
*ℤ_pos (negsuc m) b p q = absurd (omega arith)

-- one less, where it does not wrap around
pub sub_int32-one : (n : ℕ) → suc n < 2 ^ 31 → sub_int32 (pos (suc n)) (pos 1) ≡ pos n
unfolding int32 ◌-ℤ◌
sub_int32-one n h = ground arith
