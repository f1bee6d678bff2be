-- ===== src/Proto/Fixed.antt =====
-- crates/proto/src/fixed.rs: exact decimals at the scale 1e-8. A token is the list of its bytes,
-- read from the front; a u128 is a number below 2^128.
pub mod Scale
use flashbook.Prelude.{
  ℕ, zero, suc, ◌+◌, ◌-◌, ◌*◌, ◌/◌, ◌%◌, ◌^◌, Bool, true, false, List, [], ◌∷◌, ◌++◌, ltb, leb,
  ◌==◌, ◌&&◌, ◌||◌, if◌then◌else◌, Result, ok, err, reverse,
}
use flashbook.Prelude.Results.{◌>>=◌}
use flashbook.Prelude.Int.{ℤ, pos, negsuc, sub_ℕ, of_bits, two_63, two_64, pos_part, neg_part}
use Prim.Native.Nat.{min}

pub data ParseFixedError : Type 0 where
  malformed overflow precision_loss : ParseFixedError

-- `SCALE`
abbrev pub scale : ℕ
scale = 100_000_000

abbrev pub u128_max : ℕ
u128_max = 2 ^ 128 - 1

-- `c.is_ascii_digit()`
abbrev pub is_digit : ℕ → Bool
is_digit c = leb b'0' c && leb c b'9'

-- What a run of digits leaves: the mantissa, the number of digits, and the bytes behind them.
pub record Scanned : Type 0 where
  pub mant : ℕ
  pub count : ℕ
  pub rest : List ℕ

-- The loop over integer digits, and the one over fraction digits.
unfoldable pub scan_digits : List ℕ → ℕ → ℕ → Result Scanned ParseFixedError
scan_digits [] mant count = ok (record { mant = mant; count = count; rest = [] })
scan_digits (c ∷ b) mant count =
    let further = scan_digits b (mant * 10 + (c - b'0')) (count + 1) in
    if is_digit c
    then (if ltb ((u128_max - 9) / 10) mant then err overflow else further)
    else ok (record { mant = mant; count = count; rest = c ∷ b })

-- The loop over exponent digits, with its clamp; `any` says whether there was one.
unfoldable pub scan_exponent : List ℕ → ℕ → Bool → ℕ × Bool × List ℕ
scan_exponent [] e any = (e, any, [])
scan_exponent (c ∷ b) e any =
    let further = scan_exponent b (min (e * 10 + (c - b'0')) 10_000) true in
    if is_digit c then further else (e, any, c ∷ b)

-- A sign at the front: whether it is a minus, and what is behind it.
unfoldable pub take_sign : List ℕ → Bool × List ℕ
take_sign [] = (false, [])
take_sign (c ∷ b) =
    if c == b'-' then (true, b) else if c == b'+' then (false, b) else (false, c ∷ b)

-- `.` and its digits, or nothing.
unfoldable pub scan_fraction : List ℕ → ℕ → Result Scanned ParseFixedError
unfolding scan_digits
scan_fraction [] mant = ok (record { mant = mant; count = 0; rest = [] })
scan_fraction (c ∷ b) mant =
    if c == b'.' then scan_digits b mant 0 else ok (record { mant = mant; count = 0; rest = c ∷ b })

-- `e` or `E` with an exponent, or nothing.
unfoldable pub scan_power : List ℕ → Result (ℤ × List ℕ) ParseFixedError
unfolding scan_exponent take_sign
scan_power [] = ok (pos 0, [])
scan_power (c ∷ b) =
    if c == b'e' || c == b'E'
    then (let (eneg, digits) = take_sign b in
        let (e, any, rest) = scan_exponent digits 0 false in
        if any then ok ((if eneg then sub_ℕ 0 e else pos e), rest) else err malformed)
    else ok (pos 0, c ∷ b)

abbrev range_limit : Bool → ℕ
range_limit neg = if neg then two_63 else two_63 - 1

-- `v as i64`, or its `wrapping_neg`
abbrev with_sign : Bool → ℕ → ℤ
with_sign neg v = of_bits (if neg then (two_64 - v) % two_64 else v)

in_range : Bool → ℕ → Result ℤ ParseFixedError
in_range neg v = if ltb (range_limit neg) v then err overflow else ok (with_sign neg v)

scale_up : ℕ → ℕ → Result ℕ ParseFixedError
scale_up mant eff =
    if ltb 38 eff
    then err overflow
    else if ltb u128_max (mant * 10 ^ eff)
    then err overflow
    else ok (mant * 10 ^ eff)

scale_down : ℕ → ℕ → Result ℕ ParseFixedError
scale_down mant d =
    if ltb 38 d
    then err precision_loss
    else if mant % 10 ^ d == 0
    then ok (mant / 10 ^ d)
    else err precision_loss

scale_by : ℕ → ℤ → Result ℕ ParseFixedError
scale_by mant (pos n) = scale_up mant n
scale_by mant (negsuc n) = scale_down mant (suc n)

unfoldable pub scale_mantissa : ℕ → ℤ → Bool → Result ℤ ParseFixedError
unfolding in_range scale_up scale_down scale_by
scale_mantissa mant eff neg =
    if mant == 0 then ok (pos 0) else (do v ← scale_by mant eff; in_range neg v)

-- `if i != n`: every byte must be used up.
at_end : List ℕ → Result ℤ ParseFixedError → Result ℤ ParseFixedError
at_end [] r = r
at_end (c ∷ b) r = err malformed

-- `SCALE_EXP + exp - frac_digits`
abbrev effective : ℤ → ℕ → ℤ
effective exp frac_digits = sub_ℕ (8 + pos_part exp) (neg_part exp + frac_digits)

unfoldable pub parse_fixed : List ℕ → Result ℤ ParseFixedError
unfolding take_sign scan_digits scan_fraction scan_power scale_mantissa at_end
parse_fixed b = do
  let signed = take_sign b
  whole ← scan_digits signed.1 0 0
  frac ← scan_fraction whole.rest whole.mant
  power ← if whole.count + frac.count == 0 then err malformed else scan_power frac.rest
  at_end power.1 (scale_mantissa frac.mant (effective power.0 frac.count) signed.0)

-- `format!("{n}")` of a u64, which has at most 20 digits.
decimal_rounds : ℕ → ℕ → List ℕ
decimal_rounds zero n = (b'0' + n % 10) ∷ []
decimal_rounds (suc k) n =
    let high = decimal_rounds k (n / 10) in
    if ltb n 10 then (b'0' + n) ∷ [] else high ++ ((b'0' + n % 10) ∷ [])

unfoldable pub decimal : ℕ → List ℕ
unfolding decimal_rounds
decimal n = decimal_rounds 19 n

-- `format!("{n:08}")` of a number below 10^8, most significant digit first.
padded : ℕ → ℕ → List ℕ
padded zero n = []
padded (suc k) n = padded k (n / 10) ++ ((b'0' + n % 10) ∷ [])

-- `while f.ends_with('0') { f.pop(); }`, on the digits from the last to the first.
strip_zeros : List ℕ → List ℕ
strip_zeros [] = []
strip_zeros (c ∷ b) = let rest = strip_zeros b in if c == b'0' then rest else c ∷ b

unfoldable pub format_fixed : ℤ → List ℕ
unfolding decimal padded strip_zeros
format_fixed m =
    let a = pos_part m + neg_part m in
    let frac = a % scale in
    let sign = if ltb 0 (neg_part m) then b'-' ∷ [] else [] in
    if frac == 0
    then sign ++ decimal (a / scale)
    else sign ++ (decimal (a / scale) ++ (b'.' ∷ reverse (strip_zeros (reverse (padded 8 frac)))))
