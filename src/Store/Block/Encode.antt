-- ===== src/Store/Block/Encode.antt =====
-- crates/store/src/block.rs: the body that `encode_block` writes.
pub mod Body
use flashbook.Prelude.{
  ℕ, ◌-◌, ◌*◌, ◌^◌, ◌≤◌, ◌<◌, ◌≡◌, refl, sym, ap, ap₂, ◌∙◌, arith, true, Option, List, [], ◌∷◌,
  ◌++◌, length, length-append, map, All, ok,
}
use flashbook.Prelude.Int.{IsI64, IsU64}
use flashbook.Prelude.Results.{◌>>=◌}
use flashbook.Proto.Event.{Event}
use flashbook.Store.Varint.{
  encode_delta_u64, decode_delta_u64, encode_dod_u64, decode_dod_u64, encode_delta_i64,
  decode_delta_i64, encode_zz_i64, decode_zz_i64, encode_v_u32, decode_v_u32,
}
use flashbook.Store.Varint.Columns.{RoundTrip, delta_u64_roundtrip, dod_u64_roundtrip}
use flashbook.Store.Varint.Signed.{IsU32, delta_i64_roundtrip, zz_i64_roundtrip, v_u32_roundtrip}
use flashbook.Store.Varint.Lengths.{
  Sized, delta_u64-Sized, dod_u64-Sized, delta_i64-Sized, zz_i64-Sized, v_u32-Sized,
}
use flashbook.Store.Block.{
  Columns, fits_u32, to_u32, add_column, extend, encode_columns, max_block_events, max_body_len,
}
use flashbook.Store.Block.Header.{sum}
use mathlib.Core.List.{append_assoc, append-nil}

-- The fields of an event are in the ranges of their types, and the reserved byte is 0.
pub record IsStorable (e : Event) : Type 0 where
  pub mono : IsU64 e.recv_mono_ns
  pub wall : IsU64 e.recv_wall_ns
  pub vts : IsU64 e.venue_ts_ns
  pub vseq : IsU64 e.venue_seq
  pub price : IsI64 e.price
  pub qty : IsI64 e.qty
  pub aux : IsU64 e.aux
  pub inst : IsU32 e.instrument
  pub no_rsvd : e.rsvd ≡ 0

abbrev pub joined : List (List ℕ) → List ℕ
joined [] = []
joined (col ∷ cols) = col ++ joined cols

-- `raw_len` is the sum of the column lengths.
pub joined-sum : (cols : List (List ℕ)) → sum (map length cols) ≡ length (joined cols)
joined-sum [] = refl
joined-sum (c ∷ cols) = omega (arith, joined-sum cols, length-append c (joined cols))

joined-append :
    (cols : List (List ℕ)) (col : List ℕ) → joined (cols ++ (col ∷ [])) ≡ joined cols ++ col
joined-append [] col = append-nil col
joined-append (c ∷ cols) col =
    ap (λ l. c ++ l) (joined-append cols col) ∙ sym (append_assoc c (joined cols) col)

lengths-append :
    (cols : List (List ℕ)) (col : List ℕ)
    → map length (cols ++ (col ∷ [])) ≡ map length cols ++ (length col ∷ [])
lengths-append [] col = refl
lengths-append (c ∷ cols) col = ap (λ l. length c ∷ l) (lengths-append cols col)

-- The state of the writer behind some columns.
abbrev pub columns_state : List (List ℕ) → Columns
columns_state cols = record {
  body = joined cols;
  mark = length (joined cols);
  col_lens = map length cols;
}

add_column-eq :
    (write : List ℕ → List ℕ) (cols : List (List ℕ)) (col : List ℕ)
    → write (joined cols) ≡ joined cols ++ col
    → length col < 2 ^ 32
    → add_column write (columns_state cols) ≡ ok (columns_state (cols ++ (col ∷ [])))
unfolding add_column to_u32
add_column-eq write cols col e small =
    let body = joined cols ++ col in
    let size : length body - length (joined cols) ≡ length col =
      omega (arith, length-append (joined cols) col) in
    let fits : fits_u32 (length col) ≡ true = ground (arith, small) in
    ap
      (λ body. to_u32 (length body - length (joined cols)) >>= λ n.
        ok (record { body = body; mark = length body; col_lens = map length cols ++ (n ∷ []) }))
      e
    ∙ rw (size, fits)
        (ap₂ (λ b l. ok (record { body = b; mark = length b; col_lens = l }))
          (sym (joined-append cols col)) (sym (lengths-append cols col)))

-- The columns of some events, one behind the other in the body.
abbrev pub encoded : List Event → List (List ℕ)
encoded events =
    encode_dod_u64 (map (λ e. e.recv_mono_ns) events) []
    ∷ encode_dod_u64 (map (λ e. e.recv_wall_ns) events) []
    ∷ encode_delta_u64 (map (λ e. e.venue_ts_ns) events) []
    ∷ encode_delta_u64 (map (λ e. e.venue_seq) events) []
    ∷ encode_delta_i64 (map (λ e. e.price) events) []
    ∷ encode_zz_i64 (map (λ e. e.qty) events) []
    ∷ encode_delta_u64 (map (λ e. e.aux) events) []
    ∷ encode_v_u32 (map (λ e. e.instrument) events) []
    ∷ map (λ e. e.kind) events
    ∷ map (λ e. e.venue) events
    ∷ map (λ e. e.flags) events
    ∷ []

pub All-map :
    {A : Type 0} (Ok : A → Type 0) (field : Event → A) (events : List Event)
    → ((e : Event) → IsStorable e → Ok (field e))
    → All IsStorable events
    → All Ok (map field events)
All-map Ok field [] f a = tt
All-map Ok field (e ∷ events) f a = (f e a.0, All-map Ok field events f a.1)

pub length-map :
    {A : Type 0} (field : Event → A) (events : List Event)
    → length (map field events) ≡ length events
length-map field [] = refl
length-map field (e ∷ events) = omega (arith, length-map field events)

-- A varint column of at most 65,536 events, which fits into a u32.
column_small :
    {A : Type 0} (enc : List A → List ℕ → List ℕ)
    (dec : List ℕ → ℕ → List A → Option (List A × List ℕ)) (field : Event → A) (events : List Event)
    → Sized enc dec
    → length events ≤ max_block_events
    → length (enc (map field events) []) ≤ 10 * max_block_events
column_small enc dec field events s few =
    omega (arith, s.0 (map field events), length-map field events)
