-- ===== src/Store/Varint/Codec.antt =====
-- A column codec in general: a state, the code word of a value, and the decoder's step. The six
-- transforms of varint.rs are instances, and share this round trip.
use flashbook.Prelude.{
  ℕ, zero, suc, ◌≡◌, refl, ap, sym, ◌∙◌, Option, some, List, [], ◌∷◌, ◌++◌, length, All, ◌>>=◌,
}
use flashbook.Prelude.Int.{IsU64}
use flashbook.Store.Varint.{put_uvarint, take_uvarint}
use flashbook.Store.Varint.Uvarint.{put_uvarint-append, take_uvarint-put_uvarint}
use mathlib.Core.List.{append_assoc, append-nil}

pub record Codec (A S : Type 0) : Type 0 where
  -- The code word of a value, and the state after it.
  pub word : S → A → ℕ
  pub after : S → A → S
  -- What the decoder makes of a code word.
  pub step : S → ℕ → Option (A × S)

module _ {A S : Type 0} (codec : Codec A S) where
  unfoldable pub encode : S → List A → List ℕ → List ℕ
  encode s [] out = out
  encode s (v ∷ vals) out = encode (codec.after s v) vals (put_uvarint out (codec.word s v))

  unfoldable pub decode : ℕ → S → List ℕ → List A → Option (List A × List ℕ)
  decode zero s b out = some (out, b)
  decode (suc n) s b out = do
    (u, b') ← take_uvarint b
    (v, s') ← codec.step s u
    decode n s' b' (out ++ (v ∷ []))

  pub encode-append :
      (s : S) (vals : List A) (xs out : List ℕ)
      → encode s vals (xs ++ out) ≡ xs ++ encode s vals out
  unfolding encode
  encode-append s [] xs out = refl
  encode-append s (v ∷ vals) xs out =
      ap (encode (codec.after s v) vals) (put_uvarint-append xs out (codec.word s v))
      ∙ encode-append (codec.after s v) vals xs (put_uvarint out (codec.word s v))

-- The decoder undoes the encoder on every value of `Ok`, in every state of `Inv`.
pub record IsSound {A S : Type 0} (codec : Codec A S) (Ok : A → Type 0) (Inv : S → Type 0)
    : Type 0 where
  pub fits : (s : S) (v : A) → Inv s → Ok v → IsU64 (codec.word s v)
  pub keeps : (s : S) (v : A) → Inv s → Ok v → Inv (codec.after s v)
  pub undoes :
      (s : S) (v : A) → Inv s → Ok v → codec.step s (codec.word s v) ≡ some (v, codec.after s v)

module _ {A S : Type 0} {codec : Codec A S} {Ok : A → Type 0} {Inv : S → Type 0}
    (sound : IsSound codec Ok Inv) where
  -- `column` is what the encoder writes in front of whatever follows.
  pub decode-encode :
      (vals : List A) (s : S) (rest : List ℕ) (out : List A)
      → Inv s
      → All Ok vals
      → decode codec (length vals) s (encode codec s vals [] ++ rest) out ≡ some (out ++ vals, rest)
  unfolding encode decode
  decode-encode [] s rest out i a = ap (λ l. some (l, rest)) (sym (append-nil out))
  decode-encode (v ∷ vals) s rest out i a =
      let w = codec.word s v in
      let s' = codec.after s v in
      let column = encode codec s' vals [] in
      let k : ℕ × List ℕ → Option (List A × List ℕ) =
        λ x. codec.step s x.0 >>= λ y. decode codec (length vals) y.1 x.1 (out ++ (y.0 ∷ [])) in
      let front : encode codec s' vals (put_uvarint [] w) ≡ put_uvarint [] w ++ column =
        ap (encode codec s' vals) (sym (append-nil (put_uvarint [] w)))
        ∙ encode-append codec s' vals (put_uvarint [] w) [] in
      ap (λ b. take_uvarint (b ++ rest) >>= k) front
      ∙ ap (λ b. take_uvarint b >>= k) (append_assoc (put_uvarint [] w) column rest)
      ∙ ap (λ r. r >>= k) (take_uvarint-put_uvarint w (column ++ rest) (sound.fits s v i a.0))
      ∙ ap (λ r. r >>= λ y. decode codec (length vals) y.1 (column ++ rest) (out ++ (y.0 ∷ [])))
          (sound.undoes s v i a.0)
      ∙ decode-encode vals s' rest (out ++ (v ∷ [])) (sound.keeps s v i a.0) a.1
      ∙ ap (λ l. some (l, rest)) (append_assoc out (v ∷ []) vals)
