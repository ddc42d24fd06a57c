-- ===== src/Base/Int.antt =====
-- C's signed integers over the native numbers, and the conversions to `int`.
use Prim.Native.Nat.{ℕ, suc, ◌+◌, ◌-◌, ◌*◌, ◌%◌, ◌^◌, ◌≤◌, ◌<◌}
use mathlib.Core.Path.{◌≡◌}
use mathlib.Core.Bool.{Bool, true, ◌&&◌}
use mathlib.Core.Logic.{◌↔◌}
use native.Mathlib.Omega.{arith}
use libjoe.Base.Tests.{ltb, leb, ◌==◌, if◌then◌else◌}

-- `negsuc n` is -(n + 1).
pub data ℤ : Type 0 where
  pos : ℕ → ℤ
  negsuc : ℕ → ℤ

abbrev pub pos_part : ℤ → ℕ
pos_part (pos n) = n
pos_part (negsuc n) = 0

abbrev pub neg_part : ℤ → ℕ
neg_part (pos n) = 0
neg_part (negsuc n) = suc n

-- a - b, as an integer.
abbrev pub sub_ℕ : ℕ → ℕ → ℤ
sub_ℕ a b = if leb b a then pos (a - b) else negsuc (b - a - 1)

-- `return -1;`
abbrev pub minus_one : ℤ
minus_one = negsuc 0

-- The `int` with the bit pattern `w`, for `w` below 2 ^ 32.
abbrev pub signed32 : ℕ → ℤ
signed32 w = if ltb w (2 ^ 31) then pos w else negsuc (2 ^ 32 - w - 1)

-- Conversion of a wider integer to `int`, which keeps the low 32 bits.
abbrev pub to_int : ℤ → ℤ
to_int (pos n) = signed32 (n % 2 ^ 32)
to_int (negsuc n) = signed32 (2 ^ 32 - 1 - n % 2 ^ 32)

infixl 65 ◌+ℤ◌ ◌-ℤ◌
infixl 70 ◌*ℤ◌
unfoldable pub ◌+ℤ◌ : ℤ → ℤ → ℤ
a +ℤ b = sub_ℕ (pos_part a + pos_part b) (neg_part a + neg_part b)

unfoldable pub ◌-ℤ◌ : ℤ → ℤ → ℤ
a -ℤ b = sub_ℕ (pos_part a + neg_part b) (neg_part a + pos_part b)

-- A product with a factor that is not negative.
unfoldable pub ◌*ℤ◌ : ℤ → ℕ → ℤ
a *ℤ n = sub_ℕ (pos_part a * n) (neg_part a * n)

infix 50 ◌≤ℤ◌
abbrev pub ◌≤ℤ◌ : ℤ → ℤ → Type 0
a ≤ℤ b = pos_part a + neg_part b ≤ pos_part b + neg_part a

abbrev pub leb_ℤ : ℤ → ℤ → Bool
leb_ℤ a b = leb (pos_part a + neg_part b) (pos_part b + neg_part a)

pub to_int-pos : (n : ℕ) → suc n ≤ 2 ^ 31 → to_int (pos n) ≡ pos n
to_int-pos n h = ground arith

pub sub_le : (a b : ℕ) → b ≤ a → pos a -ℤ pos b ≡ pos (a - b)
unfolding ◌-ℤ◌
sub_le a b h = ground arith

pub sub_lt : (a b : ℕ) → a < b → pos a -ℤ pos b ≡ negsuc (b - a - 1)
unfolding ◌-ℤ◌
sub_lt a b h = ground arith

pub add_pos : (a b : ℕ) → pos a +ℤ pos b ≡ pos (a + b)
unfolding ◌+ℤ◌
add_pos a b = ground arith

pub mul_pos : (a k : ℕ) → pos a *ℤ k ≡ pos (a * k)
unfolding ◌*ℤ◌
mul_pos a k = ground arith

pub add_negsuc : (a b : ℕ) → a < b → negsuc a +ℤ pos b ≡ pos (b - a - 1)
unfolding ◌+ℤ◌
add_negsuc a b h = ground arith

pub to_int-negsuc : (n : ℕ) → suc n ≤ 2 ^ 31 → to_int (negsuc n) ≡ negsuc n
to_int-negsuc n h = ground arith

pub sub_negsuc : (a b : ℕ) → negsuc a -ℤ pos b ≡ negsuc (a + b)
unfolding ◌-ℤ◌
sub_negsuc a b = ground arith

pub mul_negsuc_thousand : (a : ℕ) → negsuc a *ℤ 1000 ≡ negsuc (suc a * 1000 - 1)
unfolding ◌*ℤ◌
mul_negsuc_thousand a = ground arith

pub add_negsuc_le : (a b : ℕ) → b ≤ a → negsuc a +ℤ pos b ≡ negsuc (a - b)
unfolding ◌+ℤ◌
add_negsuc_le a b h = ground arith

-- Conversion of an `int` to `unsigned int`.
abbrev pub to_unsigned : ℤ → ℕ
to_unsigned (pos n) = n % 2 ^ 32
to_unsigned (negsuc n) = 2 ^ 32 - 1 - n % 2 ^ 32

abbrev pub eq_ℤ : ℤ → ℤ → Bool
eq_ℤ a b = pos_part a == pos_part b && neg_part a == neg_part b

pub eq_ℤ_iff : (a b : ℤ) → (eq_ℤ a b ≡ true) ↔ (a ≡ b)
eq_ℤ_iff a b = ground arith

pub neg_negsuc : (n : ℕ) → pos 0 -ℤ negsuc n ≡ pos (suc n)
unfolding ◌-ℤ◌
neg_negsuc n = ground arith

pub sub_sub : (t d z : ℤ) → t -ℤ (d -ℤ z) ≡ t +ℤ z -ℤ d
unfolding ◌+ℤ◌ ◌-ℤ◌
sub_sub (pos t) (pos d) (pos z) = ground arith
sub_sub (pos t) (pos d) (negsuc z) = ground arith
sub_sub (pos t) (negsuc d) (pos z) = ground arith
sub_sub (pos t) (negsuc d) (negsuc z) = ground arith
sub_sub (negsuc t) (pos d) (pos z) = ground arith
sub_sub (negsuc t) (pos d) (negsuc z) = ground arith
sub_sub (negsuc t) (negsuc d) (pos z) = ground arith
sub_sub (negsuc t) (negsuc d) (negsuc z) = ground arith

pub sub_add_cancel : (a b : ℤ) → a -ℤ b +ℤ b ≡ a
unfolding ◌+ℤ◌ ◌-ℤ◌
sub_add_cancel (pos a) (pos b) = ground arith
sub_add_cancel (pos a) (negsuc b) = ground arith
sub_add_cancel (negsuc a) (pos b) = ground arith
sub_add_cancel (negsuc a) (negsuc b) = ground arith
