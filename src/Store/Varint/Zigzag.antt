-- ===== src/Store/Varint/Zigzag.antt =====
-- Zigzag in plain arithmetic, and its inverse.
use flashbook.Prelude.{
  ℕ, ◌+◌, ◌*◌, ◌/◌, ◌%◌, ◌<◌, ◌≡◌, ap, sym, ◌∙◌, arith, Bool-cases, inl, inr, ◌==◌,
}
use flashbook.Prelude.Int.{ℤ, pos, negsuc, IsI64, IsU64, to_bits, two_63, two_64}
use flashbook.Prelude.Bits.{bit_xor-zero, bit_xor_ones, bit_and_one}
use flashbook.Store.Varint.{zigzag, unzigzag}
use Prim.Native.Nat.{bit_and}

zigzag_pos : (n : ℕ) → n < two_63 → zigzag (pos n) ≡ 2 * n
unfolding zigzag
zigzag_pos n h = bit_xor-zero _ ∙ omega arith

zigzag_negsuc : (n : ℕ) → n < two_63 → zigzag (negsuc n) ≡ 2 * n + 1
unfolding zigzag
zigzag_negsuc n h = bit_xor_ones 64 (to_bits (negsuc n) * 2 % two_64) (omega arith) ∙ omega arith

pub zigzag-IsU64 : (v : ℤ) → IsI64 v → IsU64 (zigzag v)
zigzag-IsU64 (pos n) h = omega (arith, zigzag_pos n h.0)
zigzag-IsU64 (negsuc n) h = omega (arith, zigzag_negsuc n h.1)

unzigzag_even : (k : ℕ) → k < two_63 → unzigzag (2 * k) ≡ pos k
unfolding unzigzag
unzigzag_even k h =
    let low : bit_and (2 * k) 1 ≡ 0 = omega (arith, bit_and_one (2 * k)) in
    let half : 2 * k / 2 ≡ k = omega arith in rw (low, half, bit_xor-zero) (ground arith)

unzigzag_odd : (k : ℕ) → k < two_63 → unzigzag (2 * k + 1) ≡ negsuc k
unfolding unzigzag
unzigzag_odd k h =
    let low : bit_and (2 * k + 1) 1 ≡ 1 = omega (arith, bit_and_one (2 * k + 1)) in
    let half : (2 * k + 1) / 2 ≡ k = omega arith in
    rw (low, half, bit_xor_ones 64 k (omega arith)) (ground arith)

-- `unzigzag` inverts `zigzag` on every i64.
pub unzigzag-zigzag : (v : ℤ) → IsI64 v → unzigzag (zigzag v) ≡ v
unzigzag-zigzag (pos n) h = rw (zigzag_pos n h.0) (unzigzag_even n h.0)
unzigzag-zigzag (negsuc n) h = rw (zigzag_negsuc n h.1) (unzigzag_odd n h.1)

-- `zigzag` inverts `unzigzag` on every u64.
pub zigzag-unzigzag : (u : ℕ) → IsU64 u → zigzag (unzigzag u) ≡ u
zigzag-unzigzag u h = elim (Bool-cases (u % 2 == 0)) [
  | inl e ↦
      let even : u ≡ 2 * (u / 2) = ground arith in
      ap (λ w. zigzag (unzigzag w)) even
      ∙ ap zigzag (unzigzag_even (u / 2) (omega arith))
      ∙ zigzag_pos (u / 2) (omega arith)
      ∙ sym even
  | inr o ↦
      let odd : u ≡ 2 * (u / 2) + 1 = ground arith in
      ap (λ w. zigzag (unzigzag w)) odd
      ∙ ap zigzag (unzigzag_odd (u / 2) (omega arith))
      ∙ zigzag_negsuc (u / 2) (omega arith)
      ∙ sym odd
]
