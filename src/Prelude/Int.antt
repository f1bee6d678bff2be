-- ===== src/Prelude/Int.antt =====
-- Signed integers over the native numbers, and their two's complement bit patterns.
use Prim.Native.Nat.{ℕ, suc, ◌+◌, ◌-◌, ◌%◌, ◌^◌, ◌≤◌, ◌<◌, compare, Ordering}
use mathlib.Core.Path.{◌≡◌}
use mathlib.Core.Bool.{Bool, true}
use native.Mathlib.Omega.{arith}
use flashbook.Prelude.Tests.{ltb, leb, ◌==◌, if◌then◌else◌}

-- `negsuc n` is -(n + 1).
pub data ℤ : Type 0 where
  pos : ℕ → ℤ
  negsuc : ℕ → ℤ

abbrev pub pos_part : ℤ → ℕ
pos_part (pos n) = n
pos_part (negsuc n) = 0

abbrev pub neg_part : ℤ → ℕ
neg_part (pos n) = 0
neg_part (negsuc n) = suc n

-- a - b, as an integer.
abbrev pub sub_ℕ : ℕ → ℕ → ℤ
sub_ℕ a b = if leb b a then pos (a - b) else negsuc (b - a - 1)

-- `a.cmp(&b)`
abbrev pub cmp : ℤ → ℤ → Ordering
cmp a b = compare (pos_part a + neg_part b) (pos_part b + neg_part a)

infix 50 ◌<ℤ◌
abbrev pub ◌<ℤ◌ : ℤ → ℤ → Type 0
a <ℤ b = pos_part a + neg_part b < pos_part b + neg_part a

infix 50 ◌≤ℤ◌
abbrev pub ◌≤ℤ◌ : ℤ → ℤ → Type 0
a ≤ℤ b = pos_part a + neg_part b ≤ pos_part b + neg_part a

abbrev pub is_zero : ℤ → Bool
is_zero a = pos_part a + neg_part a == 0

-- The equality test of `i64`.
abbrev pub eqb_ℤ : ℤ → ℤ → Bool
eqb_ℤ a b = pos_part a + neg_part b == pos_part b + neg_part a

pub eq_of_parts : (a b : ℤ) → pos_part a + neg_part b ≡ pos_part b + neg_part a → a ≡ b
eq_of_parts a b h = ground arith

pub cmp-eq : (a b : ℤ) → cmp a b ≡ Ordering.eq → a ≡ b
cmp-eq a b h = eq_of_parts a b (ground arith)

pub eqb_ℤ-true : (a b : ℤ) → eqb_ℤ a b ≡ true → a ≡ b
eqb_ℤ-true a b h = eq_of_parts a b (ground arith)

pub eqb_ℤ-refl : (a : ℤ) → eqb_ℤ a a ≡ true
eqb_ℤ-refl a = ground arith

abbrev pub two_64 : ℕ
two_64 = 2 ^ 64

abbrev pub two_63 : ℕ
two_63 = 2 ^ 63

-- The range of `i64`.
abbrev pub IsI64 : ℤ → Type 0
IsI64 a = (pos_part a < two_63) × (neg_part a ≤ two_63)

abbrev pub IsU64 : ℕ → Type 0
IsU64 n = n < two_64

-- `a as u64`
abbrev pub to_bits : ℤ → ℕ
to_bits a = (pos_part a + (two_64 - neg_part a)) % two_64

-- `n as i64`
abbrev pub of_bits : ℕ → ℤ
of_bits n = if ltb n two_63 then pos n else negsuc (two_64 - n - 1)

pub of_bits-to_bits : (a : ℤ) → IsI64 a → of_bits (to_bits a) ≡ a
of_bits-to_bits (pos n) h = ground arith
of_bits-to_bits (negsuc n) h = ground arith

pub to_bits-of_bits : (n : ℕ) → IsU64 n → to_bits (of_bits n) ≡ n
to_bits-of_bits n h = ground arith

pub of_bits-IsI64 : (n : ℕ) → IsU64 n → IsI64 (of_bits n)
of_bits-IsI64 n h = ground arith

pub to_bits-IsU64 : (a : ℤ) → IsU64 (to_bits a)
to_bits-IsU64 a = omega arith
