-- ===== src/Bus/Ring/Size/Bounds.antt =====
-- The number of slots of a ring against the capacity that was asked for (crates/bus/src/ring.rs).
use flashbook.Prelude.{
  ℕ, zero, suc, ◌+◌, ◌*◌, ◌/◌, ◌%◌, ◌^◌, ◌==◌, false, refl, sym, ◌∙◌, ◌⊎◌, ◌≤◌, ◌<◌, leb, ◌≡◌, ap,
  arith, Bool-cases, inl, inr,
}
use mathlib.Core.Path.{subst}
use native.Mathlib.Numerals.{towards_suc}
use native.Mathlib.Decide.{dec_lt}
use Prim.Native.Nat.{max}
use native.Mathlib.Nat.{pow-suc, pow-le-pow_right}
use flashbook.Bus.Ring.Size.{
  exponent_from, next_power_of_two, trailing_zeros, shift_for, capacity_for,
}
use flashbook.Prelude.Int.{IsU64, two_64}

below_power : (n : ℕ) → n < 2 ^ n
below_power zero = omega arith
below_power (suc n) = omega (arith, below_power n, pow-suc 2 n)

double : (k : ℕ) → 2 ^ (k + 1) ≡ 2 * 2 ^ k
double k = simp towards_suc (omega arith)

pow_pos : (k : ℕ) → 0 < 2 ^ k
pow_pos k = omega (arith, below_power k)

exponent_from_lem :
    (rounds k n : ℕ)
    → n ≤ 2 ^ (k + rounds)
    → 2 ^ k < 2 * n
    → (n ≤ 2 ^ exponent_from rounds k n) × (2 ^ exponent_from rounds k n < 2 * n)
unfolding exponent_from
exponent_from_lem zero k n h l = (subst (λ e. n ≤ 2 ^ e) (omega arith) h, l)
exponent_from_lem (suc rounds) k n h l = elim (Bool-cases (leb n (2 ^ k))) [
  | inl e ↦ rw e (ground arith, l)
  | inr e ↦ rw e (
      exponent_from_lem rounds (k + 1) n (subst (λ e. n ≤ 2 ^ e) (omega arith) h)
        (ground (arith, double k)))
]

-- The exponent of the ring's capacity before it is wrapped.
exponent_for : ℕ → ℕ
exponent_for capacity = exponent_from (max capacity 2) 0 (max capacity 2)

exponent_for_lem :
    (capacity : ℕ)
    → (max capacity 2 ≤ 2 ^ exponent_for capacity)
      × (2 ^ exponent_for capacity < 2 * max capacity 2)
unfolding exponent_for
exponent_for_lem capacity =
    let n = max capacity 2 in
    let same : n ≡ 0 + n = omega arith in
    let enough : n ≤ 2 ^ (0 + n) = omega (arith, below_power n, ap (λ e. 2 ^ e) same) in
    exponent_from_lem n 0 n enough (omega arith)

-- The exponents of the powers of two on either side of a bound.
exponent_below : (e k : ℕ) → 2 ^ e < 2 ^ k → e < k
exponent_below e k h = elim (dec_lt e k) [
  | yes below ↦ below
  | no above ↦
      absurd (
        omega
          (arith, pow-le-pow_right {n = 2} (omega arith) {i = k} {j = e} (omega (arith, above))))
]

trailing_zeros-power : (bits e : ℕ) → e < bits → trailing_zeros bits (2 ^ e) ≡ e
unfolding trailing_zeros
trailing_zeros-power zero e h = absurd (omega arith)
trailing_zeros-power (suc bits) zero h = refl
trailing_zeros-power (suc bits) (suc e) h =
    let half : 2 ^ suc e / 2 ≡ 2 ^ e = omega (arith, pow-suc 2 e) in
    let even : (2 ^ suc e % 2 == 1) ≡ false = ground (arith, pow-suc 2 e) in
    rw (even, half) (ap suc (trailing_zeros-power bits e (omega arith)))

-- The number of slots and the shift, by that exponent.
capacity_for-exponent_for :
    (capacity : ℕ) → capacity_for capacity ≡ 2 ^ exponent_for capacity % two_64
unfolding capacity_for next_power_of_two exponent_for
capacity_for-exponent_for capacity = refl

fits :
    (capacity : ℕ) → exponent_for capacity < 64 → capacity_for capacity ≡ 2 ^ exponent_for capacity
fits capacity h =
    let high : 2 ^ suc (exponent_for capacity) ≤ 2 ^ 64 =
      pow-le-pow_right {n = 2} (omega arith) {i = suc (exponent_for capacity)} {j = 64}
        (omega (arith, h)) in
    omega (
      arith,
      capacity_for-exponent_for capacity,
      high,
      pow-suc 2 (exponent_for capacity),
      pow_pos (exponent_for capacity),
    )

shift_for-exponent_for :
    (capacity : ℕ) → exponent_for capacity < 64 → shift_for capacity ≡ exponent_for capacity
unfolding shift_for
shift_for-exponent_for capacity h =
    ap (trailing_zeros 64) (fits capacity h) ∙ trailing_zeros-power 64 (exponent_for capacity) h

wraps :
    (capacity : ℕ)
    → exponent_for capacity ≡ 64
    → (capacity_for capacity ≡ 0) × (shift_for capacity ≡ 64)
unfolding shift_for trailing_zeros
wraps capacity h =
    let none_left : capacity_for capacity ≡ 0 =
      capacity_for-exponent_for capacity ∙ ap (λ e. 2 ^ e % two_64) h in
    (none_left, ap (trailing_zeros 64) none_left)

-- For a capacity of up to 2^63, a ring has at least the capacity that was asked for, at least 2
-- slots, and fewer than twice the larger of the two; the number is the power of two that the shift
-- gives. For a larger capacity that a usize can hold, the number of slots wraps around to 0, and the
-- shift is 64.
pub capacity_for_bounds :
    (capacity : ℕ)
    → IsU64 capacity
    → ((capacity ≤ 2 ^ 63)
        × (max capacity 2 ≤ capacity_for capacity)
        × (capacity_for capacity < 2 * max capacity 2)
        × (capacity_for capacity ≡ 2 ^ shift_for capacity)
        × (shift_for capacity < 64))
      ⊎ ((2 ^ 63 < capacity) × (capacity_for capacity ≡ 0) × (shift_for capacity ≡ 64))
capacity_for_bounds capacity h =
    let e = exponent_for capacity in
    let (enough, close) = exponent_for_lem capacity in
    elim (dec_lt (2 ^ 63) capacity) [
      | yes over ↦
          let past : 63 < e = exponent_below 63 e (omega (arith, enough, over)) in
          let up_to : e < 65 = exponent_below e 65 (omega (arith, close, over, h)) in
          let (no_slots, all_bits) = wraps capacity (omega (arith, past, up_to)) in
          inr (over, no_slots, all_bits)
      | no up_to ↦
          let below : e < 64 = exponent_below e 64 (omega (arith, close, up_to)) in
          let same = fits capacity below in
          let shift = shift_for-exponent_for capacity below in
          inl (
            omega (arith, up_to),
            omega (arith, same, enough),
            omega (arith, same, close),
            same ∙ ap (λ k. 2 ^ k) (sym shift),
            omega (arith, shift, below),
          )
    ]
