-- ===== src/Store/Varint/Columns.antt =====
-- The column transforms of varint.rs as instances of `Codec`: every one is undone by its decoder,
-- which stops right behind the column, and an encoder only appends.
use flashbook.Prelude.{
  ℕ, zero, suc, ◌%◌, ◌≡◌, refl, ap, sym, ◌∙◌, arith, Option, some, List, [], ◌∷◌, ◌++◌, length, All,
  ◌>>=◌,
}
use flashbook.Prelude.Int.{
  ℤ, pos, IsI64, IsU64, to_bits, of_bits, two_64, of_bits-IsI64, of_bits-to_bits, to_bits-of_bits,
  to_bits-IsU64,
}
use flashbook.Store.Varint.{
  zigzag, unzigzag, take_uvarint, wrapping_add, wrapping_sub, wrapping_add_i64, wrapping_sub_i64,
  encode_delta_u64_from, encode_delta_u64, decode_delta_u64_from, decode_delta_u64,
  encode_dod_u64_from, encode_dod_u64, decode_dod_u64_from, decode_dod_u64,
}
use flashbook.Store.Varint.Zigzag.{unzigzag-zigzag, zigzag-IsU64}
use flashbook.Store.Varint.Codec.{Codec, IsSound, encode, decode, encode-append, decode-encode}
use mathlib.Core.List.{append-nil}
use mathlib.Core.Path.{fun_ext}

-- What a column transform promises of its two functions.
abbrev pub RoundTrip :
    {A : Type 0}
    → (List A → List ℕ → List ℕ)
    → (List ℕ → ℕ → List A → Option (List A × List ℕ))
    → List A
    → List ℕ
    → List ℕ
    → List A
    → Type 0
RoundTrip enc dec vals front rest out =
    (enc vals front ≡ front ++ enc vals [])
    × (dec (enc vals [] ++ rest) (length vals) out ≡ some (out ++ vals, rest))

-- From a sound codec that the two functions are instances of.
pub round_trip :
    {A S : Type 0} {codec : Codec A S} {Ok : A → Type 0} {Inv : S → Type 0}
    (sound : IsSound codec Ok Inv) (s : S) (enc : List A → List ℕ → List ℕ)
    (dec : List ℕ → ℕ → List A → Option (List A × List ℕ))
    → ((vals : List A) (out : List ℕ) → enc vals out ≡ encode codec s vals out)
    → ((n : ℕ) (b : List ℕ) (out : List A) → dec b n out ≡ decode codec n s b out)
    → Inv s
    → (vals : List A) → All Ok vals
    → (front rest : List ℕ) (out : List A) → RoundTrip enc dec vals front rest out
round_trip {codec = codec} sound s enc dec same_enc same_dec i vals a front rest out = (
  same_enc vals front
      ∙ ap (encode codec s vals) (sym (append-nil front))
      ∙ encode-append codec s vals front []
      ∙ ap (λ l. front ++ l) (sym (same_enc vals [])),
  ap (λ b. dec (b ++ rest) (length vals) out) (same_enc vals [])
      ∙ same_dec (length vals) _ out
      ∙ decode-encode sound vals s rest out i a,
)

-- Differences that wrap, added back.
add-sub : (v prev : ℕ) → IsU64 v → IsU64 prev → wrapping_add prev (wrapping_sub v prev) ≡ v
add-sub v prev h g = omega arith

pub wrap-IsU64 : (n : ℕ) → IsU64 (n % two_64)
wrap-IsU64 n = omega arith

undelta :
    (v prev : ℕ)
    → IsU64 v
    → IsU64 prev
    → wrapping_add prev (to_bits (of_bits (wrapping_sub v prev))) ≡ v
undelta v prev h g =
    ap (wrapping_add prev) (to_bits-of_bits (wrapping_sub v prev) (wrap-IsU64 _))
    ∙ add-sub v prev h g

pub undelta_i64 :
    (v prev : ℤ) → IsI64 v → IsI64 prev → wrapping_add_i64 prev (wrapping_sub_i64 v prev) ≡ v
undelta_i64 v prev h g =
    ap of_bits (undelta (to_bits v) (to_bits prev) (to_bits-IsU64 v) (to_bits-IsU64 prev))
    ∙ of_bits-to_bits v h

pub wrapped-IsI64 : (a b : ℤ) → IsI64 (wrapping_sub_i64 a b)
wrapped-IsI64 a b = of_bits-IsI64 _ (wrap-IsU64 _)

-- The u64 deltas.
abbrev pub delta_u64_codec : Codec ℕ ℕ
delta_u64_codec = record {
  word = λ prev v. zigzag (of_bits (wrapping_sub v prev));
  after = λ prev v. v;
  step = λ prev u. let v = wrapping_add prev (to_bits (unzigzag u)) in some (v, v);
}

delta_u64_codec-IsSound : IsSound delta_u64_codec IsU64 IsU64
delta_u64_codec-IsSound = record {
  fits = λ prev v p h. zigzag-IsU64 _ (of_bits-IsI64 _ (wrap-IsU64 _));
  keeps = λ prev v p h. h;
  undoes = λ prev v p h.
      ap (λ d. let v = wrapping_add prev (to_bits d) in some (v, v))
        (unzigzag-zigzag _ (of_bits-IsI64 _ (wrap-IsU64 _)))
      ∙ ap (λ w. some (w, w)) (undelta v prev h p);
}

pub encode_delta_u64-eq :
    (prev : ℕ) (vals out : List ℕ)
    → encode_delta_u64_from prev vals out ≡ encode delta_u64_codec prev vals out
unfolding encode_delta_u64_from encode
encode_delta_u64-eq prev [] out = refl
encode_delta_u64-eq prev (v ∷ vals) out = encode_delta_u64-eq v vals _

pub decode_delta_u64-eq :
    (n prev : ℕ) (b out : List ℕ)
    → decode_delta_u64_from n prev b out ≡ decode delta_u64_codec n prev b out
unfolding decode_delta_u64_from decode
decode_delta_u64-eq zero prev b out = refl
decode_delta_u64-eq (suc n) prev b out =
    ap (λ k. take_uvarint b >>= k) (fun_ext (λ x. decode_delta_u64-eq n _ x.1 _))

-- `decode_delta_u64` returns the u64 that `encode_delta_u64` was given, behind what `out` holds,
-- and what follows the column; the encoder keeps what `front` holds.
pub delta_u64_roundtrip :
    (vals front rest out : List ℕ)
    → All IsU64 vals
    → RoundTrip encode_delta_u64 decode_delta_u64 vals front rest out
unfolding encode_delta_u64 decode_delta_u64
delta_u64_roundtrip vals front rest out a =
    round_trip delta_u64_codec-IsSound 0 encode_delta_u64 decode_delta_u64 (encode_delta_u64-eq 0)
      (λ n b out. decode_delta_u64-eq n 0 b out) (omega arith) vals a front rest out

-- The u64 deltas of deltas.
abbrev pub DodState : Type 0
DodState = ℕ × ℤ

abbrev pub dod_u64_codec : Codec ℕ DodState
dod_u64_codec = record {
  word = λ s v. zigzag (wrapping_sub_i64 (of_bits (wrapping_sub v s.0)) s.1);
  after = λ s v. (v, of_bits (wrapping_sub v s.0));
  step = λ s u.
      let delta = wrapping_add_i64 s.1 (unzigzag u) in
      let v = wrapping_add s.0 (to_bits delta) in some (v, (v, delta));
}

dod_decoded : DodState → ℤ → Option (ℕ × DodState)
dod_decoded s delta = let v = wrapping_add s.0 (to_bits delta) in some (v, (v, delta))

dod_u64_codec-IsSound : IsSound dod_u64_codec IsU64 (λ s. IsU64 s.0 × IsI64 s.1)
unfolding dod_decoded
dod_u64_codec-IsSound = record {
  fits = λ s v p h. zigzag-IsU64 _ (wrapped-IsI64 (of_bits (wrapping_sub v s.0)) s.1);
  keeps = λ s v p h. (h, of_bits-IsI64 _ (wrap-IsU64 _));
  undoes = λ s v p h.
      let delta = of_bits (wrapping_sub v s.0) in
      ap (λ d. dod_decoded s (wrapping_add_i64 s.1 d)) (unzigzag-zigzag _ (wrapped-IsI64 delta s.1))
      ∙ ap (dod_decoded s) (undelta_i64 delta s.1 (of_bits-IsI64 _ (wrap-IsU64 _)) p.1)
      ∙ ap (λ w. some (w, (w, delta))) (undelta v s.0 h p.0);
}

pub encode_dod_u64-eq :
    (prev : ℕ) (delta : ℤ) (vals out : List ℕ)
    → encode_dod_u64_from prev delta vals out ≡ encode dod_u64_codec (prev, delta) vals out
unfolding encode_dod_u64_from encode
encode_dod_u64-eq prev delta [] out = refl
encode_dod_u64-eq prev delta (v ∷ vals) out = encode_dod_u64-eq v _ vals _

pub decode_dod_u64-eq :
    (n prev : ℕ) (delta : ℤ) (b out : List ℕ)
    → decode_dod_u64_from n prev delta b out ≡ decode dod_u64_codec n (prev, delta) b out
unfolding decode_dod_u64_from decode
decode_dod_u64-eq zero prev delta b out = refl
decode_dod_u64-eq (suc n) prev delta b out =
    ap (λ k. take_uvarint b >>= k) (fun_ext (λ x. decode_dod_u64-eq n _ _ x.1 _))

-- `decode_dod_u64` returns the u64 that `encode_dod_u64` was given, behind what `out` holds, and
-- what follows the column; the encoder keeps what `front` holds.
pub dod_u64_roundtrip :
    (vals front rest out : List ℕ)
    → All IsU64 vals
    → RoundTrip encode_dod_u64 decode_dod_u64 vals front rest out
unfolding encode_dod_u64 decode_dod_u64
dod_u64_roundtrip vals front rest out a =
    round_trip dod_u64_codec-IsSound (0, pos 0) encode_dod_u64 decode_dod_u64
      (encode_dod_u64-eq 0 (pos 0)) (λ n b out. decode_dod_u64-eq n 0 (pos 0) b out)
      (omega arith, (omega arith, omega arith)) vals a front rest out
