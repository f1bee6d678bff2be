-- ===== src/Store/Block/Decode/RoundTrip.antt =====
-- crates/store/src/block.rs: `encode_block`, and `decode_block` behind it.
use flashbook.Prelude.{
  ℕ, ◌+◌, ◌^◌, ◌≤◌, ◌<◌, ◌≡◌, refl, sym, ap, ◌∙◌, arith, Bool, true, false, Option, none, some,
  List, [], ◌∷◌, ◌++◌, length, ltb, ◌==◌, Result, ok, err, All, Bool-cases, ◌⊎◌, inl, inr,
}
use flashbook.Prelude.Int.{ℤ}
use flashbook.Prelude.Results.{◌>>=◌}
use flashbook.Proto.Hasher.{Hasher, IsCrc32}
use flashbook.Proto.Event.{Event}
use flashbook.Store.Block.{
  max_block_events, BlockError, encode, BlockHeader, Zstd, IsZstd, to_u32, fits_u32, stored_body,
  block_bytes, any_rsvd, encode_block,
}
use flashbook.Store.Block.Encode.{IsStorable, joined, encoded, columns_state}
use flashbook.Store.Block.Encode.Body.{joined-length, encode_columns-encoded}
use flashbook.Store.Block.Header.{raw_body}
use flashbook.Store.Block.Header.Written.{header_bytes, header_fields, length_100}
use flashbook.Store.Block.Decode.{decode_block}
use flashbook.Store.Block.Decode.Written.{
  fields, fields-IsPlausible, block_bytes-fields, decode_block-fields,
}
use mathlib.Core.List.{append_assoc}

any_rsvd-storable : (events : List Event) → All IsStorable events → any_rsvd events ≡ false
unfolding any_rsvd
any_rsvd-storable [] a = refl
any_rsvd-storable (e ∷ events) a = rw (a.0.no_rsvd) (any_rsvd-storable events a.1)

to_u32-small : (n : ℕ) → n < 2 ^ 32 → to_u32 n ≡ ok n
unfolding to_u32
to_u32-small n h = let fits : fits_u32 n ≡ true = ground (arith, h) in rw fits refl

module _ (hasher : Hasher) (laws : IsCrc32 hasher) (codec : Zstd) (undo : IsZstd codec)
    (events : List Event) (storable : All IsStorable events) (more : 0 < length events)
    (few : length events ≤ max_block_events) where
  abbrev body : List ℕ
  body = joined (encoded events)

  -- The compressor was asked for, and failed, and the error says so.
  abbrev pub CompressFailed : Option ℤ → List ℕ → Type 0
  CompressFailed level out =
      (l : ℤ) × (b : List ℕ) × (level ≡ some l)
      × (codec.compress b l ≡ none)
      × (encode_block hasher codec events level out ≡ err (encode "zstd compress failed"))

  -- A block is written, and read back in front of anything.
  abbrev pub Written : Option ℤ → List ℕ → List ℕ → List Event → Type 0
  Written level out t evs =
      (bytes : List ℕ) × (h : BlockHeader) × (encode_block hasher codec events level out
        ≡ ok (length bytes, out ++ bytes))
      × (decode_block hasher codec (bytes ++ t) evs ≡ ok (h, length bytes, evs ++ events))
      × (h.n_events ≡ length events)

  -- `encode_block` behind the checks and the columns.
  encode_block-stored :
      (level : Option ℤ) (out : List ℕ)
      → encode_block hasher codec events level out ≡ (
          stored_body hasher codec level body >>= λ stored. to_u32 (length stored.0) >>= λ n.
          let block =
            block_bytes hasher codec events (columns_state (encoded events)) stored.0 stored.1 in
          ok (length block, out ++ block))
  unfolding encode_block
  encode_block-stored level out =
      let not_empty : (length events == 0) ≡ false = ground (arith, more) in
      let not_many : ltb max_block_events (length events) ≡ false = ground (arith, few) in
      rw
        (
          not_empty,
          not_many,
          any_rsvd-storable events storable,
          encode_columns-encoded events storable few,
          to_u32-small (length body) (omega (arith, joined-length events storable few)),
        )
        refl

  written :
      (level : Option ℤ) (out t : List ℕ) (evs : List Event) (stored : List ℕ) (z : Bool)
      → stored_body hasher codec level body ≡ ok (stored, z)
      → length stored ≤ length body
      → raw_body hasher codec stored
          (header_fields (fields hasher laws codec events storable more few stored z))
        ≡ ok body
      → Written level out t evs
  written level out t evs stored z e shorter raw =
      let f = fields hasher laws codec events storable more few stored z in
      let bytes = header_bytes f ++ stored in
      let size : length bytes ≡ 100 + length stored =
        length_100 f
          (fields-IsPlausible hasher laws codec events storable more few stored z shorter) stored in
      let small : length stored < 2 ^ 32 = omega (arith, joined-length events storable few) in
      (
        bytes,
        header_fields f,
        encode_block-stored level out
            ∙ ap
                (λ (r : Result (List ℕ × Bool) BlockError). r >>= λ stored.
                  to_u32 (length stored.0) >>= λ n.
                  let block =
                    block_bytes hasher codec events (columns_state (encoded events)) stored.0
                      stored.1 in
                  ok (length block, out ++ block))
                e
            ∙ rw
                (
                  to_u32-small (length stored) small,
                  block_bytes-fields hasher laws codec events storable more few stored z,
                )
                refl,
        ap (λ b. decode_block hasher codec b evs) (append_assoc (header_bytes f) stored t)
            ∙ decode_block-fields hasher laws codec events storable more few stored z shorter t evs
                raw
            ∙ ap (λ n. ok (header_fields f, n, evs ++ events)) (sym size),
        refl,
      )

  compressed :
      (level : ℤ) (out t : List ℕ) (evs : List Event) (o : Option (List ℕ))
      → codec.compress body level ≡ o
      → CompressFailed (some level) out ⊎ Written (some level) out t evs
  unfolding stored_body raw_body
  compressed level out t evs none e =
      inl (level, body, refl, e, encode_block-stored (some level) out ∙ rw e refl)
  compressed level out t evs (some c) e = elim (Bool-cases (ltb (length c) (length body))) [
    | inl short ↦ inr (
        written (some level) out t evs c true (rw (e, short) refl) (ground (arith, short))
          (rw (undo.undoes body c level e) refl))
    | inr long ↦
        inr (written (some level) out t evs body false (rw (e, long) refl) (omega arith) refl)
  ]

  -- A block of 1 to 65,536 events with fields in range and a reserved byte of 0 is written behind
  -- what is there, and `decode_block` of it, with anything behind it, gives those events behind the
  -- ones that are there, and the size of the block. Only a compressor that fails stops this, at a
  -- level that was asked for: then the error says so.
  pub decode_block-encode_block :
      (level : Option ℤ) (out t : List ℕ) (evs : List Event)
      → CompressFailed level out ⊎ Written level out t evs
  unfolding stored_body raw_body
  decode_block-encode_block none out t evs =
      inr (written none out t evs body false refl (omega arith) refl)
  decode_block-encode_block (some level) out t evs =
      compressed level out t evs (codec.compress body level) refl
