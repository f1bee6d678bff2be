-- ===== src/Store/Varint/Signed.antt =====
-- The column transforms of i64 and u32 in varint.rs, as instances of `Codec`.
use flashbook.Prelude.{
  ℕ, zero, suc, ◌^◌, ◌<◌, ◌≡◌, refl, ap, sym, arith, Option, none, some, List, [], ◌∷◌, ◌++◌, All,
  ◌>>=◌,
}
use flashbook.Prelude.Int.{ℤ, pos, IsI64}
use flashbook.Store.Varint.{
  zigzag, unzigzag, take_uvarint, wrapping_add_i64, wrapping_sub_i64, encode_delta_i64_from,
  encode_delta_i64, decode_delta_i64_from, decode_delta_i64, encode_zz_i64, decode_zz_i64_rounds,
  decode_zz_i64, encode_v_u32, decode_v_u32_rounds, decode_v_u32, to_u32,
}
use flashbook.Store.Varint.Zigzag.{unzigzag-zigzag, zigzag-IsU64}
use flashbook.Store.Varint.Codec.{Codec, IsSound, encode, decode}
use flashbook.Store.Varint.Columns.{RoundTrip, round_trip, undelta_i64, wrapped-IsI64}
use mathlib.Core.Path.{fun_ext, ◌∙◌}

-- The i64 deltas.
abbrev pub delta_i64_codec : Codec ℤ ℤ
delta_i64_codec = record {
  word = λ prev v. zigzag (wrapping_sub_i64 v prev);
  after = λ prev v. v;
  step = λ prev u. let v = wrapping_add_i64 prev (unzigzag u) in some (v, v);
}

delta_i64_codec-IsSound : IsSound delta_i64_codec IsI64 IsI64
delta_i64_codec-IsSound = record {
  fits = λ prev v p h. zigzag-IsU64 _ (wrapped-IsI64 v prev);
  keeps = λ prev v p h. h;
  undoes = λ prev v p h.
      ap (λ d. let w = wrapping_add_i64 prev d in some (w, w))
        (unzigzag-zigzag _ (wrapped-IsI64 v prev))
      ∙ ap (λ w. some (w, w)) (undelta_i64 v prev h p);
}

pub encode_delta_i64-eq :
    (prev : ℤ) (vals : List ℤ) (out : List ℕ)
    → encode_delta_i64_from prev vals out ≡ encode delta_i64_codec prev vals out
unfolding encode_delta_i64_from encode
encode_delta_i64-eq prev [] out = refl
encode_delta_i64-eq prev (v ∷ vals) out = encode_delta_i64-eq v vals _

pub decode_delta_i64-eq :
    (n : ℕ) (prev : ℤ) (b : List ℕ) (out : List ℤ)
    → decode_delta_i64_from n prev b out ≡ decode delta_i64_codec n prev b out
unfolding decode_delta_i64_from decode
decode_delta_i64-eq zero prev b out = refl
decode_delta_i64-eq (suc n) prev b out =
    ap (λ k. take_uvarint b >>= k) (fun_ext (λ x. decode_delta_i64-eq n _ x.1 _))

-- `decode_delta_i64` returns the i64 that `encode_delta_i64` was given, behind what `out` holds,
-- and what follows the column; the encoder keeps what `front` holds.
pub delta_i64_roundtrip :
    (vals : List ℤ) (front rest : List ℕ) (out : List ℤ)
    → All IsI64 vals
    → RoundTrip encode_delta_i64 decode_delta_i64 vals front rest out
unfolding encode_delta_i64 decode_delta_i64
delta_i64_roundtrip vals front rest out a =
    round_trip delta_i64_codec-IsSound (pos 0) encode_delta_i64 decode_delta_i64
      (encode_delta_i64-eq (pos 0)) (λ n b out. decode_delta_i64-eq n (pos 0) b out) (omega arith)
      vals a front rest out

-- Plain zigzag; there is no state.
abbrev pub zz_i64_codec : Codec ℤ (Unit {0})
zz_i64_codec = record {
  word = λ s v. zigzag v;
  after = λ s v. s;
  step = λ s u. some (unzigzag u, s);
}

zz_i64_codec-IsSound : IsSound zz_i64_codec IsI64 (λ s. Unit {0})
zz_i64_codec-IsSound = record {
  fits = λ s v p h. zigzag-IsU64 v h;
  keeps = λ s v p h. tt;
  undoes = λ s v p h. ap (λ w. some (w, s)) (unzigzag-zigzag v h);
}

pub encode_zz_i64-eq :
    (vals : List ℤ) (out : List ℕ) → encode_zz_i64 vals out ≡ encode zz_i64_codec tt vals out
unfolding encode_zz_i64 encode
encode_zz_i64-eq [] out = refl
encode_zz_i64-eq (v ∷ vals) out = encode_zz_i64-eq vals _

pub decode_zz_i64-eq :
    (n : ℕ) (b : List ℕ) (out : List ℤ)
    → decode_zz_i64_rounds n b out ≡ decode zz_i64_codec n tt b out
unfolding decode_zz_i64_rounds decode
decode_zz_i64-eq zero b out = refl
decode_zz_i64-eq (suc n) b out =
    ap (λ k. take_uvarint b >>= k) (fun_ext (λ x. decode_zz_i64-eq n x.1 _))

-- `decode_zz_i64` returns the i64 that `encode_zz_i64` was given, behind what `out` holds, and
-- what follows the column; the encoder keeps what `front` holds.
pub zz_i64_roundtrip :
    (vals : List ℤ) (front rest : List ℕ) (out : List ℤ)
    → All IsI64 vals
    → RoundTrip encode_zz_i64 decode_zz_i64 vals front rest out
unfolding decode_zz_i64
zz_i64_roundtrip vals front rest out a =
    round_trip zz_i64_codec-IsSound tt encode_zz_i64 decode_zz_i64 encode_zz_i64-eq
      (λ n b out. decode_zz_i64-eq n b out) tt vals a front rest out

abbrev pub IsU32 : ℕ → Type 0
IsU32 n = n < 2 ^ 32

-- Plain varints of u32; the decoder refuses a number that is too wide.
abbrev pub v_u32_codec : Codec ℕ (Unit {0})
v_u32_codec = record {
  word = λ s v. v;
  after = λ s v. s;
  step = λ s u. to_u32 u >>= λ w. some (w, s);
}

to_u32_fits : (v : ℕ) → IsU32 v → to_u32 v ≡ some v
to_u32_fits v h = ground arith

v_u32_codec-IsSound : IsSound v_u32_codec IsU32 (λ s. Unit {0})
v_u32_codec-IsSound = record {
  fits = λ s v p h. omega arith;
  keeps = λ s v p h. tt;
  undoes = λ s v p h. ap (λ o. o >>= λ w. some (w, s)) (to_u32_fits v h);
}

pub encode_v_u32-eq : (vals out : List ℕ) → encode_v_u32 vals out ≡ encode v_u32_codec tt vals out
unfolding encode_v_u32 encode
encode_v_u32-eq [] out = refl
encode_v_u32-eq (v ∷ vals) out = encode_v_u32-eq vals _

>>=_assoc :
    {A B C : Type 0} (o : Option A) (f : A → Option B) (g : B → Option C)
    → ((o >>= f) >>= g) ≡ (o >>= λ a. f a >>= g)
>>=_assoc none f g = refl
>>=_assoc (some a) f g = refl

pub decode_v_u32-eq :
    (n : ℕ) (b out : List ℕ) → decode_v_u32_rounds n b out ≡ decode v_u32_codec n tt b out
unfolding decode_v_u32_rounds decode
decode_v_u32-eq zero b out = refl
decode_v_u32-eq (suc n) b out =
    ap (λ k. take_uvarint b >>= k)
      (fun_ext (λ x.
        ap (λ k. to_u32 x.0 >>= k) (fun_ext (λ w. decode_v_u32-eq n x.1 (out ++ (w ∷ []))))
        ∙ sym (
            >>=_assoc (to_u32 x.0) (λ w. some (w, tt))
              (λ y. decode v_u32_codec n y.1 x.1 (out ++ (y.0 ∷ []))))))

-- `decode_v_u32` returns the u32 that `encode_v_u32` was given, behind what `out` holds, and what
-- follows the column; the encoder keeps what `front` holds.
pub v_u32_roundtrip :
    (vals front rest out : List ℕ)
    → All IsU32 vals
    → RoundTrip encode_v_u32 decode_v_u32 vals front rest out
unfolding decode_v_u32
v_u32_roundtrip vals front rest out a =
    round_trip v_u32_codec-IsSound tt encode_v_u32 decode_v_u32 encode_v_u32-eq
      (λ n b out. decode_v_u32-eq n b out) tt vals a front rest out
