-- ===== src/Store/Block/Decode/Written.antt =====
-- crates/store/src/block.rs: a block that was written, read.
use flashbook.Prelude.{
  ℕ, ◌+◌, ◌-◌, ◌≤◌, ◌<◌, ◌≡◌, refl, sym, ap, ◌∙◌, arith, Bool, true, false, List, [], ◌∷◌, ◌++◌,
  length, length-append, map, drop, ltb, ◌==◌, ok, All,
}
use flashbook.Prelude.Int.{IsU64, two_64}
use flashbook.Prelude.Bytes.{le_bytes}
use flashbook.Prelude.Results.{◌>>=◌}
use flashbook.Prelude.Slices.{take-append}
use flashbook.Proto.Hasher.{Hasher, IsCrc32, hash}
use flashbook.Proto.Event.{Event}
use flashbook.Store.Varint.{
  encode_delta_u64, encode_dod_u64, encode_delta_i64, encode_zz_i64, encode_v_u32,
}
use flashbook.Store.Block.{max_block_events, Zstd, min_of, max_of, block_bytes}
use flashbook.Store.Block.Encode.{
  IsStorable, joined, encoded, columns_state, joined-sum, length-map,
}
use flashbook.Store.Block.Encode.Body.{joined-length}
use flashbook.Store.Block.Header.{sum, raw_body, read_body}
use flashbook.Store.Block.Header.Written.{
  Fields, lens_of, header_bytes, IsPlausible, header_fields, parse_header-header_bytes, length_100,
}
use flashbook.Store.Block.Decode.{
  decode_varint_columns, offset_at, block_columns, decode_block, offsets_from,
}
use flashbook.Store.Block.Decode.Columns.{columns_of, assemble-columns_of}
use flashbook.Store.Block.Decode.Joined.{
  offsets, decode_varint_columns-joined, event_columns-joined,
}
use Prim.Native.Nat.{min, max}
use mathlib.Core.List.{foldl}

-- The clock ranges fit into a u64.
min_of-IsU64 :
    (field : Event → ℕ) (events : List Event) (m : ℕ)
    → IsU64 m
    → IsU64 (foldl (λ m e. min m (field e)) m events)
min_of-IsU64 field [] m h = h
min_of-IsU64 field (e ∷ events) m h = min_of-IsU64 field events (min m (field e)) (omega arith)

max_of-IsU64 :
    (field : Event → ℕ) (events : List Event) (m : ℕ)
    → All IsStorable events
    → ((e : Event) → IsStorable e → IsU64 (field e))
    → IsU64 m
    → IsU64 (foldl (λ m e. max m (field e)) m events)
max_of-IsU64 field [] m a f h = h
max_of-IsU64 field (e ∷ events) m a f h =
    max_of-IsU64 field events (max m (field e)) a.1 f (omega (arith, f e a.0))

no_rsvd : (events : List Event) → All IsStorable events → All (λ e. e.rsvd ≡ 0) events
no_rsvd [] a = tt
no_rsvd (e ∷ events) a = (a.0.no_rsvd, no_rsvd events a.1)

module _ (hasher : Hasher) (laws : IsCrc32 hasher) (codec : Zstd) (events : List Event)
    (storable : All IsStorable events) (more : 0 < length events)
    (few : length events ≤ max_block_events) (stored : List ℕ) (z : Bool) where
  abbrev pub body : List ℕ
  body = joined (encoded events)

  -- The fields that `encode_block` writes.
  abbrev pub fields : Fields
  fields = record {
    zstd = z;
    n = length events;
    body_len = length stored;
    raw_len = length body;
    min_mono = min_of (λ e. e.recv_mono_ns) events;
    max_mono = max_of (λ e. e.recv_mono_ns) events;
    min_wall = min_of (λ e. e.recv_wall_ns) events;
    max_wall = max_of (λ e. e.recv_wall_ns) events;
    crc = hash hasher stored;
    l0 = length (encode_dod_u64 (map (λ e. e.recv_mono_ns) events) []);
    l1 = length (encode_dod_u64 (map (λ e. e.recv_wall_ns) events) []);
    l2 = length (encode_delta_u64 (map (λ e. e.venue_ts_ns) events) []);
    l3 = length (encode_delta_u64 (map (λ e. e.venue_seq) events) []);
    l4 = length (encode_delta_i64 (map (λ e. e.price) events) []);
    l5 = length (encode_zz_i64 (map (λ e. e.qty) events) []);
    l6 = length (encode_delta_u64 (map (λ e. e.aux) events) []);
    l7 = length (encode_v_u32 (map (λ e. e.instrument) events) []);
  }

  lens_of-fields : map length (encoded events) ≡ lens_of fields
  lens_of-fields =
      rw
        (
          length-map (λ e. e.kind) events,
          length-map (λ e. e.venue) events,
          length-map (λ e. e.flags) events,
        )
        refl

  pub block_bytes-fields :
      block_bytes hasher codec events (columns_state (encoded events)) stored z
      ≡ header_bytes fields ++ stored
  unfolding block_bytes le_bytes
  block_bytes-fields =
      rw
        (
          length-map (λ e. e.kind) events,
          length-map (λ e. e.venue) events,
          length-map (λ e. e.flags) events,
        )
        refl

  module _ (shorter : length stored ≤ length body) where
    pub fields-IsPlausible : IsPlausible fields
    fields-IsPlausible = record {
      some_events = more;
      few_events = few;
      body_fits = omega (arith, joined-length events storable few);
      raw_fits = joined-length events storable few;
      min_mono = min_of-IsU64 (λ e. e.recv_mono_ns) events (two_64 - 1) (omega arith);
      max_mono = max_of-IsU64 (λ e. e.recv_mono_ns) events 0 storable (λ e h. h.mono) (omega arith);
      min_wall = min_of-IsU64 (λ e. e.recv_wall_ns) events (two_64 - 1) (omega arith);
      max_wall = max_of-IsU64 (λ e. e.recv_wall_ns) events 0 storable (λ e h. h.wall) (omega arith);
      crc = laws.is_u32 _;
      total = ap sum (sym lens_of-fields) ∙ joined-sum (encoded events);
    }

    read_body-fields :
        (t : List ℕ)
        → raw_body hasher codec stored (header_fields fields) ≡ ok body
        → read_body hasher codec (header_bytes fields ++ (stored ++ t)) (header_fields fields)
          ≡ ok (body, 100 + length stored)
    unfolding read_body le_bytes
    read_body-fields t e =
        let long : ltb (length (header_bytes fields ++ (stored ++ t))) (100 + length stored)
            ≡ false =
          ground
            (arith, length_100 fields fields-IsPlausible (stored ++ t), length-append stored t) in
        let same : (hash hasher stored == hash hasher stored) ≡ true = ground arith in
        let size : (length body == length body) ≡ true = ground arith in
        rw (long, take-append stored t (length stored) refl, same, e, size) refl

    block_columns-fields :
        block_columns (header_fields fields) body
        ≡ ok ((columns_of events).varints, drop (offset_at (offsets (encoded events)) 8) body)
    unfolding block_columns
    block_columns-fields =
        ap
          (λ l. decode_varint_columns body (offsets_from 0 l) (length events) >>= λ c.
            ok (c, drop (offset_at (offsets_from 0 l) 8) body))
          (sym lens_of-fields)
        ∙ ap (λ r. r >>= λ c. ok (c, drop (offset_at (offsets (encoded events)) 8) body))
            (decode_varint_columns-joined events storable few)

    -- What the reader makes of the bytes, if it gets back the body.
    pub decode_block-fields :
        (t : List ℕ) (out : List Event)
        → raw_body hasher codec stored (header_fields fields) ≡ ok body
        → decode_block hasher codec (header_bytes fields ++ (stored ++ t)) out
          ≡ ok (header_fields fields, 100 + length stored, out ++ events)
    unfolding decode_block
    decode_block-fields t out e =
        rw
          (
            parse_header-header_bytes fields fields-IsPlausible (stored ++ t),
            read_body-fields t e,
            block_columns-fields,
            event_columns-joined events storable few,
            assemble-columns_of events (no_rsvd events storable),
          )
          refl
