-- ===== src/Proto/Fixed/Scale.antt =====
-- crates/proto/src/fixed.rs: `scale_mantissa` is exact.
use flashbook.Prelude.{
  ℕ, suc, ◌+◌, ◌*◌, ◌%◌, ◌^◌, Bool, true, false, ◌==◌, Result, ok, err, ◌≡◌, refl, sym, ◌∙◌, arith,
  Bool-cases, inl, inr, ==→eq,
}
use mathlib.Core.Path.{subst}
use native.Mathlib.Nat.{div-add-mod'}
use flashbook.Prelude.Results.{◌>>=◌}
use flashbook.Prelude.Int.{ℤ, pos, negsuc, pos_part, neg_part}
use flashbook.Proto.Fixed.{
  ParseFixedError, in_range, scale_up, scale_down, scale_by, scale_mantissa,
}

-- The magnitude `a` is the mantissa times the power of ten.
abbrev pub IsScaled : ℕ → ℤ → ℕ → Type 0
IsScaled mant (pos n) a = a ≡ mant * 10 ^ n
IsScaled mant (negsuc n) a = a * 10 ^ suc n ≡ mant

-- A magnitude in range is that of the signed number.
in_range_lem : (neg : Bool) (v : ℕ) (w : ℤ) → in_range neg v ≡ ok w → pos_part w + neg_part w ≡ v
unfolding in_range
in_range_lem true v w e = ground arith
in_range_lem false v w e = ground arith

scale_up-IsScaled : (mant n v : ℕ) → scale_up mant n ≡ ok v → v ≡ mant * 10 ^ n
unfolding scale_up
scale_up-IsScaled mant n v e = ground arith

scale_down-IsScaled : (mant n v : ℕ) → scale_down mant (suc n) ≡ ok v → v * 10 ^ suc n ≡ mant
unfolding scale_down
scale_down-IsScaled mant n v e = elim (Bool-cases (mant % 10 ^ suc n == 0)) [
  | inl d ↦ ground (arith, div-add-mod' mant (10 ^ suc n))
  | inr d ↦ ground arith
]

scale_by-IsScaled : (mant : ℕ) (eff : ℤ) (v : ℕ) → scale_by mant eff ≡ ok v → IsScaled mant eff v
unfolding scale_by
scale_by-IsScaled mant (pos n) v e = scale_up-IsScaled mant n v e
scale_by-IsScaled mant (negsuc n) v e = scale_down-IsScaled mant n v e

zero-IsScaled : (eff : ℤ) → IsScaled 0 eff 0
zero-IsScaled (pos n) = omega arith
zero-IsScaled (negsuc n) = omega arith

IsScaled-in_range :
    (mant : ℕ) (eff : ℤ) (neg : Bool) (w : ℤ) (r : Result ℕ ParseFixedError)
    → scale_by mant eff ≡ r
    → (r >>= in_range neg) ≡ ok w
    → IsScaled mant eff (pos_part w + neg_part w)
IsScaled-in_range mant eff neg w (ok v) d e =
    subst (IsScaled mant eff) (sym (in_range_lem neg v w e)) (scale_by-IsScaled mant eff v d)
IsScaled-in_range mant eff neg w (err x) d e = absurd (ground arith)

-- Where `scale_mantissa` succeeds it is exact, whatever the mantissa, the power and the sign: the
-- magnitude of the result is the mantissa times the power of ten, with nothing rounded or cut off.
pub scale_mantissa_exact :
    (mant : ℕ) (eff : ℤ) (neg : Bool) (w : ℤ)
    → scale_mantissa mant eff neg ≡ ok w
    → IsScaled mant eff (pos_part w + neg_part w)
unfolding scale_mantissa
scale_mantissa_exact mant eff neg w e = elim (Bool-cases (mant == 0)) [
  | inl z ↦ let same : ok (pos 0) ≡ ok w = sym (rw z refl) ∙ e in rw (==→eq mant 0 z) (ground arith)
  | inr z ↦ IsScaled-in_range mant eff neg w (scale_by mant eff) refl (ground arith)
]
