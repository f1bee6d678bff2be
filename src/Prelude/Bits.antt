-- ===== src/Prelude/Bits.antt =====
-- Bitwise operations at variables: one equation for the lowest digit, and what follows from it.
use Prim.Native.Nat.{
  ℕ, zero, suc, ◌+◌, ◌-◌, ◌*◌, ◌/◌, ◌%◌, ◌^◌, ◌≤◌, ◌<◌, min, max, bit_and, bit_or, bit_xor, digits,
  bitwise, differ, bit_and-bitwise, bit_or-bitwise, bit_xor-bitwise,
}
use mathlib.Core.Path.{◌≡◌, refl, sym, ap, ◌∙◌}
use native.Mathlib.Omega.{arith}
use native.Mathlib.Nat.{pow-suc, one-le-pow, div-add-mod', mod-lt}
use mathlib.Core.Logic.{inl, inr}
use flashbook.Prelude.Tests.{◌==◌, ==→eq, ltb, if◌then◌else◌, Bool-cases}

module _ (base : ℕ → ℕ) (op : ℕ → ℕ → ℕ) where
  -- With a round for each unit of the first number, one more round changes nothing.
  extra_round : (x n y : ℕ) → x ≤ n → digits base op (suc n) x y ≡ digits base op n x y
  extra_round zero zero y le = refl
  extra_round zero (suc n) y le = refl
  extra_round (suc x) zero y le = absurd (omega arith)
  extra_round (suc x) (suc n) y le =
      ap (λ d. d * 2 + op (suc x % 2) (y % 2)) (extra_round (suc x / 2) n (y / 2) (omega arith))

  spare_rounds : (k x y : ℕ) → digits base op (k + x) x y ≡ digits base op x x y
  spare_rounds zero x y = ap (λ n. digits base op n x y) (omega arith)
  spare_rounds (suc k) x y =
      let next : suc k + x ≡ suc (k + x) = omega arith in
      ap (λ n. digits base op n x y) next
      ∙ extra_round x (k + x) y (omega arith)
      ∙ spare_rounds k x y

  low_digit :
      (x y : ℕ)
      → bitwise base op (suc x) y ≡ op (suc x % 2) (y % 2) + 2 * bitwise base op (suc x / 2) (y / 2)
  low_digit x y =
      let half = suc x / 2 in
      let all : x ≡ x - half + half = omega arith in
      omega
        (arith, spare_rounds (x - half) half (y / 2), ap (λ n. digits base op n half (y / 2)) all)

-- The lowest binary digit of a result, and the others.
or_digit : (x y : ℕ) → bit_or x y ≡ max (x % 2) (y % 2) + 2 * bit_or (x / 2) (y / 2)
or_digit zero y = simp bit_or-bitwise (omega arith)
or_digit (suc x) y = simp bit_or-bitwise (low_digit (λ n. n) max x y)

xor_digit : (x y : ℕ) → bit_xor x y ≡ differ (x % 2) (y % 2) + 2 * bit_xor (x / 2) (y / 2)
xor_digit zero y = simp bit_xor-bitwise (omega arith)
xor_digit (suc x) y = simp bit_xor-bitwise (low_digit (λ n. n) differ x y)

and_digit : (x y : ℕ) → bit_and x y ≡ min (x % 2) (y % 2) + 2 * bit_and (x / 2) (y / 2)
and_digit zero y = simp bit_and-bitwise (omega arith)
and_digit (suc x) y = simp bit_and-bitwise (low_digit (λ n. 0) min x y)

double_shift : (q k : ℕ) → q * 2 ^ suc k ≡ 2 * (q * 2 ^ k)
double_shift q k = omega (arith, ap (λ (p : ℕ). p * q) (pow-suc 2 k))

zero-bit_or : (a : ℕ) → bit_or 0 a ≡ a
zero-bit_or a = bit_or-bitwise 0 a

-- `r | (q << k)` is a sum when `r` fits `k` bits.
pub bit_or_shifted : (k q r : ℕ) → r < 2 ^ k → bit_or r (q * 2 ^ k) ≡ r + q * 2 ^ k
bit_or_shifted zero q zero h = zero-bit_or (q * 1) ∙ omega arith
bit_or_shifted zero q (suc r) h = absurd (omega arith)
bit_or_shifted (suc k) q r h = ground (
  arith,
  or_digit r (q * 2 ^ suc k),
  double_shift q k,
  pow-suc 2 k,
  bit_or_shifted k q (r / 2) (omega (arith, pow-suc 2 k)),
)

differ-zero : (a : ℕ) → differ a 0 ≡ a
differ-zero zero = refl
differ-zero (suc a) = refl

-- `x ^ 0` and `x ^ (all ones)`.
bit_xor-zero_fuel : (n a : ℕ) → a ≤ n → bit_xor a 0 ≡ a
bit_xor-zero_fuel n zero h = refl
bit_xor-zero_fuel zero (suc a) h = absurd (omega arith)
bit_xor-zero_fuel (suc n) (suc a) h = omega (
  arith,
  xor_digit (suc a) 0,
  differ-zero (suc a % 2),
  bit_xor-zero_fuel n (suc a / 2) (omega arith),
)

pub bit_xor-zero : (a : ℕ) → bit_xor a 0 ≡ a
bit_xor-zero a = bit_xor-zero_fuel a a (omega arith)

differ-one : (a : ℕ) → a < 2 → differ a 1 ≡ 1 - a
differ-one zero h = refl
differ-one (suc zero) h = refl
differ-one (suc (suc a)) h = absurd (omega arith)

pub bit_xor_ones : (k a : ℕ) → a < 2 ^ k → bit_xor a (2 ^ k - 1) ≡ 2 ^ k - 1 - a
bit_xor_ones zero zero h = refl
bit_xor_ones zero (suc a) h = absurd (omega arith)
bit_xor_ones (suc k) a h =
    let half : (2 ^ suc k - 1) / 2 ≡ 2 ^ k - 1 = omega (arith, pow-suc 2 k) in
    let odd : (2 ^ suc k - 1) % 2 ≡ 1 = omega (arith, pow-suc 2 k, one-le-pow k 2) in
    ground (
      arith,
      xor_digit a (2 ^ suc k - 1),
      ap (bit_xor (a / 2)) half,
      ap (differ (a % 2)) odd,
      differ-one (a % 2),
      pow-suc 2 k,
      bit_xor_ones k (a / 2) (omega (arith, pow-suc 2 k)),
    )

bit_and-zero : (n x : ℕ) → x ≤ n → bit_and x 0 ≡ 0
bit_and-zero zero zero le = refl
bit_and-zero zero (suc x) le = absurd (omega arith)
bit_and-zero (suc n) x le = elim (Bool-cases (x == 0)) [
  | inl none ↦ ap (λ y. bit_and y 0) (==→eq x 0 none)
  | inr some ↦
      let less : x / 2 ≤ n = ground arith in
      omega (arith, and_digit x 0, bit_and-zero n (x / 2) less)
]

-- `u & 1`
pub bit_and_one : (a : ℕ) → bit_and a 1 ≡ a % 2
bit_and_one a = omega (arith, and_digit a 1, bit_and-zero (a / 2) (a / 2) (omega arith))

bit_and_low : (k q r : ℕ) → r < 2 ^ k → bit_and (q * 2 ^ k + r) (2 ^ k - 1) ≡ r
bit_and_low zero q r h = bit_and-zero (q * 1 + r) (q * 1 + r) (omega arith) ∙ omega arith
bit_and_low (suc k) q r h =
    let half : (2 ^ suc k - 1) / 2 ≡ 2 ^ k - 1 = omega (arith, pow-suc 2 k) in
    let odd : (2 ^ suc k - 1) % 2 ≡ 1 = omega (arith, pow-suc 2 k, one-le-pow k 2) in
    let rest : (q * 2 ^ suc k + r) / 2 ≡ q * 2 ^ k + r / 2 = omega (arith, double_shift q k) in
    let low : (q * 2 ^ suc k + r) % 2 ≡ r % 2 = omega (arith, double_shift q k) in
    and_digit (q * 2 ^ suc k + r) (2 ^ suc k - 1)
    ∙ rw (half, odd, rest, low)
        (omega (arith, bit_and_low k q (r / 2) (omega (arith, pow-suc 2 k))))

-- `a & (2^k - 1)`
pub bit_and_mask : (k a : ℕ) → bit_and a (2 ^ k - 1) ≡ a % 2 ^ k
bit_and_mask k a =
    ap (λ t. bit_and t (2 ^ k - 1)) (sym (div-add-mod' a (2 ^ k)))
    ∙ bit_and_low k (a / 2 ^ k) (a % 2 ^ k) (mod-lt a (one-le-pow k 2 (omega arith)))

-- The masks of one byte.
pub low_bits : (b : ℕ) → bit_and b 0x7f ≡ b % 128
low_bits b = bit_and_mask 7 b

single_bit : (k b : ℕ) → b < 2 ^ suc k → bit_and b (2 ^ k) ≡ (if ltb b (2 ^ k) then 0 else 2 ^ k)
single_bit zero zero h = refl
single_bit zero (suc zero) h = refl
single_bit zero (suc (suc b)) h = absurd (omega arith)
single_bit (suc k) b h =
    let below : 2 ^ suc k / 2 ≡ 2 ^ k = omega (arith, pow-suc 2 k) in
    ground (
      arith,
      and_digit b (2 ^ suc k),
      pow-suc 2 k,
      pow-suc 2 (suc k),
      one-le-pow k 2,
      ap (bit_and (b / 2)) below,
      single_bit k (b / 2) (omega (arith, pow-suc 2 (suc k))),
    )

pub top_bit : (b : ℕ) → b < 256 → bit_and b 0x80 ≡ b / 128 * 128
top_bit b h = ground (arith, single_bit 7 b h)

-- Setting the bit above `k` others.
set_bit : (k b : ℕ) → b < 2 ^ suc k → bit_or b (2 ^ k) ≡ (if ltb b (2 ^ k) then b + 2 ^ k else b)
set_bit zero zero h = refl
set_bit zero (suc zero) h = refl
set_bit zero (suc (suc b)) h = absurd (omega arith)
set_bit (suc k) b h =
    let below : 2 ^ suc k / 2 ≡ 2 ^ k = omega (arith, pow-suc 2 k) in
    ground (
      arith,
      or_digit b (2 ^ suc k),
      pow-suc 2 k,
      pow-suc 2 (suc k),
      ap (bit_or (b / 2)) below,
      set_bit k (b / 2) (omega (arith, pow-suc 2 (suc k))),
    )

pub set_top_bit : (b : ℕ) → b < 256 → bit_or b 0x80 ≡ b % 128 + 128
set_top_bit b h = ground (arith, set_bit 7 b h)
