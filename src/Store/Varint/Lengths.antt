-- ===== src/Store/Varint/Lengths.antt =====
-- The sizes of the columns in varint.rs: a decoder returns as many values as it is asked for, and a
-- value takes at most ten bytes.
use flashbook.Prelude.{
  ℕ, zero, suc, ◌+◌, ◌*◌, ◌/◌, ◌%◌, ◌^◌, ◌≤◌, ◌≡◌, ap, sym, ◌∙◌, arith, Option, some, List, [], ◌∷◌,
  ◌++◌, length, length-append, ltb, Bool-cases, inl, inr, >>=-eq-some,
}
use flashbook.Prelude.Int.{pos}
use flashbook.Store.Varint.{
  put_rounds, put_uvarint, take_uvarint, encode_delta_u64, decode_delta_u64, encode_dod_u64,
  decode_dod_u64, encode_delta_i64, decode_delta_i64, encode_zz_i64, decode_zz_i64, encode_v_u32,
  decode_v_u32,
}
use flashbook.Store.Varint.Codec.{Codec, encode, decode}
use flashbook.Store.Varint.Columns.{
  encode_delta_u64-eq, decode_delta_u64-eq, encode_dod_u64-eq, decode_dod_u64-eq, delta_u64_codec,
  dod_u64_codec,
}
use flashbook.Store.Varint.Signed.{
  encode_delta_i64-eq, decode_delta_i64-eq, encode_zz_i64-eq, decode_zz_i64-eq, encode_v_u32-eq,
  decode_v_u32-eq, delta_i64_codec, zz_i64_codec, v_u32_codec,
}
use Prim.Native.Nat.{bit_or}

put_rounds-length :
    (k : ℕ) (out : List ℕ) (v : ℕ) → length (put_rounds k out v) ≤ length out + suc k
unfolding put_rounds
put_rounds-length zero out v = omega (arith, length-append out ((v % 256) ∷ []))
put_rounds-length (suc k) out v =
    let more = out ++ (bit_or (v % 256) 0x80 ∷ []) in
    elim (Bool-cases (ltb v 0x80)) [
      | inl e ↦ rw e (omega (arith, length-append out ((v % 256) ∷ [])))
      | inr e ↦ rw e (
          omega (
            arith,
            put_rounds-length k more (v / 2 ^ 7),
            length-append out (bit_or (v % 256) 0x80 ∷ []),
          ))
    ]

put_uvarint-length : (out : List ℕ) (v : ℕ) → length (put_uvarint out v) ≤ length out + 10
unfolding put_uvarint
put_uvarint-length out v = put_rounds-length 9 out v

module _ {A S : Type 0} (codec : Codec A S) where
  encode-length :
      (s : S) (vals : List A) (out : List ℕ)
      → length (encode codec s vals out) ≤ length out + 10 * length vals
  unfolding encode
  encode-length s [] out = omega arith
  encode-length s (v ∷ vals) out = omega (
    arith,
    encode-length (codec.after s v) vals (put_uvarint out (codec.word s v)),
    put_uvarint-length out (codec.word s v),
  )

  decode-length :
      (n : ℕ) (s : S) (b : List ℕ) (out vals : List A) (rest : List ℕ)
      → decode codec n s b out ≡ some (vals, rest)
      → length vals ≡ length out + n
  unfolding decode
  decode-length zero s b out vals rest e = ground arith
  decode-length (suc n) s b out vals rest e =
      let (x, _, e1) = >>=-eq-some (take_uvarint b) _ e in
      let (y, _, e2) = >>=-eq-some (codec.step s x.0) _ e1 in
      omega (
        arith,
        decode-length n y.1 x.1 (out ++ (y.0 ∷ [])) vals rest e2,
        length-append out (y.0 ∷ []),
      )

-- What a column transform keeps of the sizes.
abbrev pub Sized :
    {A : Type 0}
    → (List A → List ℕ → List ℕ)
    → (List ℕ → ℕ → List A → Option (List A × List ℕ))
    → Type 0
Sized {A} enc dec =
    ((vals : List A) → length (enc vals []) ≤ 10 * length vals)
    × ((n : ℕ) (b : List ℕ) (vals : List A) (rest : List ℕ)
        → dec b n [] ≡ some (vals, rest)
        → length vals ≡ n)

sized :
    {A S : Type 0} (codec : Codec A S) (s : S) (enc : List A → List ℕ → List ℕ)
    (dec : List ℕ → ℕ → List A → Option (List A × List ℕ))
    → ((vals : List A) (out : List ℕ) → enc vals out ≡ encode codec s vals out)
    → ((n : ℕ) (b : List ℕ) (out : List A) → dec b n out ≡ decode codec n s b out)
    → Sized enc dec
sized codec s enc dec same_enc same_dec = (
  λ vals. omega (arith, ap length (same_enc vals []), encode-length codec s vals []),
  λ n b vals rest e.
      omega (arith, decode-length codec n s b [] vals rest (sym (same_dec n b []) ∙ e)),
)

pub delta_u64-Sized : Sized encode_delta_u64 decode_delta_u64
unfolding encode_delta_u64 decode_delta_u64
delta_u64-Sized =
    sized delta_u64_codec 0 encode_delta_u64 decode_delta_u64 (encode_delta_u64-eq 0)
      (λ n b out. decode_delta_u64-eq n 0 b out)

pub dod_u64-Sized : Sized encode_dod_u64 decode_dod_u64
unfolding encode_dod_u64 decode_dod_u64
dod_u64-Sized =
    sized dod_u64_codec (0, pos 0) encode_dod_u64 decode_dod_u64 (encode_dod_u64-eq 0 (pos 0))
      (λ n b out. decode_dod_u64-eq n 0 (pos 0) b out)

pub delta_i64-Sized : Sized encode_delta_i64 decode_delta_i64
unfolding encode_delta_i64 decode_delta_i64
delta_i64-Sized =
    sized delta_i64_codec (pos 0) encode_delta_i64 decode_delta_i64 (encode_delta_i64-eq (pos 0))
      (λ n b out. decode_delta_i64-eq n (pos 0) b out)

pub zz_i64-Sized : Sized encode_zz_i64 decode_zz_i64
unfolding decode_zz_i64
zz_i64-Sized =
    sized zz_i64_codec tt encode_zz_i64 decode_zz_i64 encode_zz_i64-eq
      (λ n b out. decode_zz_i64-eq n b out)

pub v_u32-Sized : Sized encode_v_u32 decode_v_u32
unfolding decode_v_u32
v_u32-Sized =
    sized v_u32_codec tt encode_v_u32 decode_v_u32 encode_v_u32-eq
      (λ n b out. decode_v_u32-eq n b out)
