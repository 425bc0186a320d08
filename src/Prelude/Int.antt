-- ===== src/Prelude/Int.antt =====
-- Go's signed integers. An `int64` operation that can overflow is written with `int64`.
use Prim.Native.Nat.{ℕ, suc, ◌+◌, ◌-◌, ◌≤◌, ◌<◌, ◌%◌}
use mathlib.Core.Path.{◌≡◌, refl}
use mathlib.Core.Logic.{◌↔◌}
use mathlib.Core.Bool.{Bool, true}
use native.Mathlib.Omega.{arith}
use percona_load_generator_m.Prelude.Tests.{ltb, leb, ◌==◌, if◌then◌else◌}

-- `negsuc n` is -(n + 1).
pub data ℤ : Type 0 where
  pos : ℕ → ℤ
  negsuc : ℕ → ℤ

abbrev pub pos_part : ℤ → ℕ
pos_part (pos n) = n
pos_part (negsuc n) = 0

abbrev pub neg_part : ℤ → ℕ
neg_part (pos n) = 0
neg_part (negsuc n) = suc n

-- a - b, as an integer.
abbrev pub sub_ℕ : ℕ → ℕ → ℤ
sub_ℕ a b = if leb b a then pos (a - b) else negsuc (b - a - 1)

infixl 65 ◌+ℤ◌ ◌-ℤ◌
infix 50 ◌≤ℤ◌ ◌<ℤ◌
unfoldable pub ◌+ℤ◌ : ℤ → ℤ → ℤ
a +ℤ b = sub_ℕ (pos_part a + pos_part b) (neg_part a + neg_part b)

unfoldable pub ◌-ℤ◌ : ℤ → ℤ → ℤ
a -ℤ b = sub_ℕ (pos_part a + neg_part b) (neg_part a + pos_part b)

abbrev pub ◌≤ℤ◌ : ℤ → ℤ → Type 0
a ≤ℤ b = pos_part a + neg_part b ≤ pos_part b + neg_part a

abbrev pub ◌<ℤ◌ : ℤ → ℤ → Type 0
a <ℤ b = pos_part a + neg_part b < pos_part b + neg_part a

abbrev pub ltb_ℤ : ℤ → ℤ → Bool
ltb_ℤ a b = ltb (pos_part a + neg_part b) (pos_part b + neg_part a)

abbrev pub leb_ℤ : ℤ → ℤ → Bool
leb_ℤ a b = leb (pos_part a + neg_part b) (pos_part b + neg_part a)

abbrev pub eqb_ℤ : ℤ → ℤ → Bool
eqb_ℤ a b = (pos_part a + neg_part b) == (pos_part b + neg_part a)

abbrev pub max_ℤ : ℤ → ℤ → ℤ
max_ℤ a b = if ltb_ℤ b a then a else b

pub eqb_ℤ_iff : (a b : ℤ) → (eqb_ℤ a b ≡ true) ↔ (a ≡ b)
eqb_ℤ_iff a b = ground arith

-- The signed value of a 64-bit pattern.
abbrev pub signed64 : ℕ → ℤ
signed64 m = if ltb m 9223372036854775808 then pos m else negsuc (18446744073709551615 - m)

-- Wrap-around of an `int64` (and of `int` and `time.Duration`, which are 64 bits wide).
unfoldable pub int64 : ℤ → ℤ
int64 (pos n) = signed64 (n % 18446744073709551616)
int64 (negsuc n) = signed64 (18446744073709551615 - n % 18446744073709551616)

pub int64_pos : (n : ℕ) → n < 9223372036854775808 → int64 (pos n) ≡ pos n
unfolding int64
int64_pos n h = ground arith

int64_wraps : int64 (pos 9223372036854775808) ≡ negsuc 9223372036854775807
unfolding int64
int64_wraps = refl

int64_negative : int64 (negsuc 4) ≡ negsuc 4
unfolding int64
int64_negative = refl

-- The signed value of a 32-bit pattern, and the conversion of an `int` to `int32`.
abbrev pub signed32 : ℕ → ℤ
signed32 m = if ltb m 2147483648 then pos m else negsuc (4294967295 - m)

unfoldable pub int32 : ℤ → ℤ
int32 (pos n) = signed32 (n % 4294967296)
int32 (negsuc n) = signed32 (4294967295 - n % 4294967296)

abbrev pub IsInt32 : ℤ → Type 0
IsInt32 a = (negsuc 2147483647 ≤ℤ a) × (a ≤ℤ pos 2147483647)

pub int32_id : (a : ℤ) → IsInt32 a → int32 a ≡ a
unfolding int32
int32_id (pos n) h = ground arith
int32_id (negsuc n) h = ground arith
