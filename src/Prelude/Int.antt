-- ===== src/Prelude/Int.antt =====
-- Signed integers over the native numbers, and the wrap-around of Go's int64 and int32.
use descartes_legacy.Prelude.{
  ℕ, suc, ◌+◌, ◌-◌, ◌*◌, ◌%◌, ◌^◌, ◌≤◌, ◌<◌, ◌≡◌, ◌↔◌, ap, subst, Bool, true, false, ◌==◌, arith,
  ltb, leb, if◌then◌else◌,
}

-- `negsuc n` is -(n + 1).
pub data ℤ : Type 0 where
  pos : ℕ → ℤ
  negsuc : ℕ → ℤ

abbrev pub pos_part : ℤ → ℕ
pos_part (pos n) = n
pos_part (negsuc n) = 0

abbrev pub neg_part : ℤ → ℕ
neg_part (pos n) = 0
neg_part (negsuc n) = suc n

-- a - b, as an integer.
abbrev pub sub_ℕ : ℕ → ℕ → ℤ
sub_ℕ a b = if leb b a then pos (a - b) else negsuc (b - a - 1)

infixl 65 ◌+ℤ◌ ◌-ℤ◌
infix 50 ◌≤ℤ◌ ◌<ℤ◌
unfoldable pub ◌+ℤ◌ : ℤ → ℤ → ℤ
a +ℤ b = sub_ℕ (pos_part a + pos_part b) (neg_part a + neg_part b)

unfoldable pub ◌-ℤ◌ : ℤ → ℤ → ℤ
a -ℤ b = sub_ℕ (pos_part a + neg_part b) (neg_part a + pos_part b)

abbrev pub ◌≤ℤ◌ : ℤ → ℤ → Type 0
a ≤ℤ b = pos_part a + neg_part b ≤ pos_part b + neg_part a

abbrev pub ◌<ℤ◌ : ℤ → ℤ → Type 0
a <ℤ b = pos_part a + neg_part b < pos_part b + neg_part a

abbrev pub ltb_ℤ : ℤ → ℤ → Bool
ltb_ℤ a b = ltb (pos_part a + neg_part b) (pos_part b + neg_part a)

abbrev pub eqb_ℤ : ℤ → ℤ → Bool
eqb_ℤ (pos m) (pos n) = m == n
eqb_ℤ (negsuc m) (negsuc n) = m == n
eqb_ℤ _ _ = false

eqb_ℤ-same : (a b : ℤ) → eqb_ℤ a b ≡ true → a ≡ b
eqb_ℤ-same (pos m) (pos n) h = ap pos (ground (arith, h))
eqb_ℤ-same (negsuc m) (negsuc n) h = ap negsuc (ground (arith, h))
eqb_ℤ-same (pos m) (negsuc n) h = cc h
eqb_ℤ-same (negsuc m) (pos n) h = cc h

eqb_ℤ_refl : (a : ℤ) → eqb_ℤ a a ≡ true
eqb_ℤ_refl (pos m) = ground arith
eqb_ℤ_refl (negsuc m) = ground arith

pub eqb_ℤ_iff : (a b : ℤ) → (eqb_ℤ a b ≡ true) ↔ (a ≡ b)
eqb_ℤ_iff a b = (eqb_ℤ-same a b, λ e. subst (λ x. eqb_ℤ a x ≡ true) e (eqb_ℤ_refl a))

-- The two's complement value of `w` bits, `w` > 0, that a number below 2 ^ w stands for.
abbrev from_bits : ℕ → ℕ → ℤ
from_bits half n = if ltb n half then pos n else negsuc (half * 2 - 1 - n)

-- The integer of the range [-half, half) that is congruent to the argument modulo 2 * half.
abbrev wrap : ℕ → ℤ → ℤ
wrap half (pos n) = from_bits half (n % (half * 2))
wrap half (negsuc n) = from_bits half (half * 2 - 1 - n % (half * 2))

abbrev pub half_64 : ℕ
half_64 = 9223372036854775808

-- Go's conversion to int64, applied to the exact result of an operation.
unfoldable pub int64 : ℤ → ℤ
int64 = wrap half_64

unfoldable pub int32 : ℤ → ℤ
int32 = wrap 2147483648

abbrev pub IsInt64 : ℤ → Type 0
IsInt64 z = (pos_part z < half_64) × (neg_part z ≤ half_64)

pub int64_fits : (z : ℤ) → IsInt64 z → int64 z ≡ z
unfolding int64
int64_fits (pos n) h = ground arith
int64_fits (negsuc n) h = ground arith

pub int64-IsInt64 : (z : ℤ) → IsInt64 (int64 z)
unfolding int64
int64-IsInt64 (pos n) = ground arith
int64-IsInt64 (negsuc n) = ground arith

pub +ℤ_parts :
    (a b : ℤ)
    → pos_part (a +ℤ b) + neg_part a + neg_part b ≡ neg_part (a +ℤ b) + pos_part a + pos_part b
unfolding ◌+ℤ◌
+ℤ_parts a b = ground arith

pub -ℤ_parts :
    (a b : ℤ)
    → pos_part (a -ℤ b) + neg_part a + pos_part b ≡ neg_part (a -ℤ b) + pos_part a + neg_part b
unfolding ◌-ℤ◌
-ℤ_parts a b = ground arith

pub eq_of_parts : (a b : ℤ) → pos_part a + neg_part b ≡ pos_part b + neg_part a → a ≡ b
eq_of_parts a b h = ground arith

pub ruleset int_laws = (arith, +ℤ_parts, -ℤ_parts, eq_of_parts)
