-- ===== src/Store/Varint.antt =====
-- crates/store/src/varint.rs: zigzag, LEB128 varints, and the column transforms. A byte slice with
-- `*pos` is the list of the bytes from `pos` on; a decoder returns what is left of it. A u64 is a
-- number below 2^64 with its wrap-around written out, and an i64 is an integer.
pub mod Zigzag
pub mod Uvarint
pub mod Codec
pub mod Columns
pub mod Signed
pub mod Lengths
use flashbook.Prelude.{
  ℕ, zero, suc, ◌+◌, ◌-◌, ◌*◌, ◌/◌, ◌%◌, ◌^◌, ◌<◌, Bool, true, false, Option, none, some, List, [],
  ◌∷◌, ◌++◌, ltb, ◌==◌, ◌&&◌, if◌then◌else◌, ◌>>=◌, map,
}
use flashbook.Prelude.Int.{ℤ, pos, negsuc, to_bits, of_bits, two_63, two_64}
use Prim.Native.Nat.{bit_and, bit_or, bit_xor}

-- `v >> 63` of an i64: every bit is the sign bit.
sign_bits : ℤ → ℕ
sign_bits (pos n) = 0
sign_bits (negsuc n) = two_64 - 1

-- `((v << 1) ^ (v >> 63)) as u64`
unfoldable pub zigzag : ℤ → ℕ
unfolding sign_bits
zigzag v = bit_xor (to_bits v * 2 % two_64) (sign_bits v)

-- `-((u & 1) as i64)` as bits: 0 or all ones.
abbrev neg_low_bit : ℕ → ℕ
neg_low_bit u = (two_64 - bit_and u 1) % two_64

-- `((u >> 1) as i64) ^ -((u & 1) as i64)`
unfoldable pub unzigzag : ℕ → ℤ
unzigzag u = of_bits (bit_xor (u / 2) (neg_low_bit u))

-- The loop of `put_uvarint`: a u64 has at most 10 groups of 7 bits, so 9 rounds are enough.
put_rounds : ℕ → List ℕ → ℕ → List ℕ
put_rounds zero out v = out ++ ((v % 256) ∷ [])
put_rounds (suc rounds) out v =
    let rest = put_rounds rounds (out ++ (bit_or (v % 256) 0x80 ∷ [])) (v / 2 ^ 7) in
    if ltb v 0x80 then out ++ ((v % 256) ∷ []) else rest

unfoldable pub put_uvarint : List ℕ → ℕ → List ℕ
unfolding put_rounds
put_uvarint out v = put_rounds 9 out v

-- The loop of `take_uvarint`, by the bytes that are left.
take_loop : List ℕ → ℕ → ℕ → Option (ℕ × List ℕ)
take_loop [] v shift = none
take_loop (byte ∷ b) v shift =
    let v' = bit_or v (bit_and byte 0x7f * 2 ^ shift % two_64) in
    let rest = take_loop b v' (shift + 7) in
    if shift == 63 && ltb 1 byte
    then none
    else if bit_and byte 0x80 == 0
    then some (v', b)
    else if ltb 63 (shift + 7)
    then none
    else rest

unfoldable pub take_uvarint : List ℕ → Option (ℕ × List ℕ)
unfolding take_loop
take_uvarint b = take_loop b 0 0

-- `a.wrapping_sub(b)` and `a.wrapping_add(b)` of u64.
abbrev pub wrapping_sub : ℕ → ℕ → ℕ
wrapping_sub a b = (a + (two_64 - b)) % two_64

abbrev pub wrapping_add : ℕ → ℕ → ℕ
wrapping_add a b = (a + b) % two_64

-- The same of i64: on the bits.
abbrev pub wrapping_sub_i64 : ℤ → ℤ → ℤ
wrapping_sub_i64 a b = of_bits (wrapping_sub (to_bits a) (to_bits b))

abbrev pub wrapping_add_i64 : ℤ → ℤ → ℤ
wrapping_add_i64 a b = of_bits (wrapping_add (to_bits a) (to_bits b))

-- `encode_delta_u64` and `decode_delta_u64`, from a previous value on.
pub encode_delta_u64_from : ℕ → List ℕ → List ℕ → List ℕ
encode_delta_u64_from prev [] out = out
encode_delta_u64_from prev (v ∷ vals) out =
    encode_delta_u64_from v vals (put_uvarint out (zigzag (of_bits (wrapping_sub v prev))))

unfoldable pub encode_delta_u64 : List ℕ → List ℕ → List ℕ
unfolding encode_delta_u64_from
encode_delta_u64 vals out = encode_delta_u64_from 0 vals out

pub decode_delta_u64_from : ℕ → ℕ → List ℕ → List ℕ → Option (List ℕ × List ℕ)
decode_delta_u64_from zero prev b out = some (out, b)
decode_delta_u64_from (suc n) prev b out = do
  (u, b') ← take_uvarint b
  let v = wrapping_add prev (to_bits (unzigzag u))
  decode_delta_u64_from n v b' (out ++ (v ∷ []))

unfoldable pub decode_delta_u64 : List ℕ → ℕ → List ℕ → Option (List ℕ × List ℕ)
unfolding decode_delta_u64_from
decode_delta_u64 b n out = decode_delta_u64_from n 0 b out

-- `encode_dod_u64` and `decode_dod_u64`
pub encode_dod_u64_from : ℕ → ℤ → List ℕ → List ℕ → List ℕ
encode_dod_u64_from prev prev_delta [] out = out
encode_dod_u64_from prev prev_delta (v ∷ vals) out =
    let delta = of_bits (wrapping_sub v prev) in
    encode_dod_u64_from v delta vals (put_uvarint out (zigzag (wrapping_sub_i64 delta prev_delta)))

unfoldable pub encode_dod_u64 : List ℕ → List ℕ → List ℕ
unfolding encode_dod_u64_from
encode_dod_u64 vals out = encode_dod_u64_from 0 (pos 0) vals out

pub decode_dod_u64_from : ℕ → ℕ → ℤ → List ℕ → List ℕ → Option (List ℕ × List ℕ)
decode_dod_u64_from zero prev prev_delta b out = some (out, b)
decode_dod_u64_from (suc n) prev prev_delta b out = do
  (u, b') ← take_uvarint b
  let delta = wrapping_add_i64 prev_delta (unzigzag u)
  let v = wrapping_add prev (to_bits delta)
  decode_dod_u64_from n v delta b' (out ++ (v ∷ []))

unfoldable pub decode_dod_u64 : List ℕ → ℕ → List ℕ → Option (List ℕ × List ℕ)
unfolding decode_dod_u64_from
decode_dod_u64 b n out = decode_dod_u64_from n 0 (pos 0) b out

-- `encode_delta_i64` and `decode_delta_i64`
pub encode_delta_i64_from : ℤ → List ℤ → List ℕ → List ℕ
encode_delta_i64_from prev [] out = out
encode_delta_i64_from prev (v ∷ vals) out =
    encode_delta_i64_from v vals (put_uvarint out (zigzag (wrapping_sub_i64 v prev)))

unfoldable pub encode_delta_i64 : List ℤ → List ℕ → List ℕ
unfolding encode_delta_i64_from
encode_delta_i64 vals out = encode_delta_i64_from (pos 0) vals out

pub decode_delta_i64_from : ℕ → ℤ → List ℕ → List ℤ → Option (List ℤ × List ℕ)
decode_delta_i64_from zero prev b out = some (out, b)
decode_delta_i64_from (suc n) prev b out = do
  (u, b') ← take_uvarint b
  let v = wrapping_add_i64 prev (unzigzag u)
  decode_delta_i64_from n v b' (out ++ (v ∷ []))

unfoldable pub decode_delta_i64 : List ℕ → ℕ → List ℤ → Option (List ℤ × List ℕ)
unfolding decode_delta_i64_from
decode_delta_i64 b n out = decode_delta_i64_from n (pos 0) b out

-- `encode_zz_i64` and `decode_zz_i64`
unfoldable pub encode_zz_i64 : List ℤ → List ℕ → List ℕ
encode_zz_i64 [] out = out
encode_zz_i64 (v ∷ vals) out = encode_zz_i64 vals (put_uvarint out (zigzag v))

pub decode_zz_i64_rounds : ℕ → List ℕ → List ℤ → Option (List ℤ × List ℕ)
decode_zz_i64_rounds zero b out = some (out, b)
decode_zz_i64_rounds (suc n) b out = do
  (u, b') ← take_uvarint b
  decode_zz_i64_rounds n b' (out ++ (unzigzag u ∷ []))

unfoldable pub decode_zz_i64 : List ℕ → ℕ → List ℤ → Option (List ℤ × List ℕ)
unfolding decode_zz_i64_rounds
decode_zz_i64 b n out = decode_zz_i64_rounds n b out

-- `encode_v_u32` and `decode_v_u32`
unfoldable pub encode_v_u32 : List ℕ → List ℕ → List ℕ
encode_v_u32 [] out = out
encode_v_u32 (v ∷ vals) out = encode_v_u32 vals (put_uvarint out v)

-- `u32::try_from(v).ok()`
abbrev to_u32 : ℕ → Option ℕ
to_u32 v = if ltb v (2 ^ 32) then some v else none

pub decode_v_u32_rounds : ℕ → List ℕ → List ℕ → Option (List ℕ × List ℕ)
decode_v_u32_rounds zero b out = some (out, b)
decode_v_u32_rounds (suc n) b out = do
  (v, b') ← take_uvarint b
  w ← to_u32 v
  decode_v_u32_rounds n b' (out ++ (w ∷ []))

unfoldable pub decode_v_u32 : List ℕ → ℕ → List ℕ → Option (List ℕ × List ℕ)
unfolding decode_v_u32_rounds
decode_v_u32 b n out = decode_v_u32_rounds n b out
