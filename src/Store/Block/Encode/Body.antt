-- ===== src/Store/Block/Encode/Body.antt =====
-- crates/store/src/block.rs: the columns of some events, each with its round trip and its size.
use flashbook.Prelude.{ℕ, ◌≤◌, ◌≡◌, refl, arith, List, [], ◌∷◌, length, map, All, ok}
use flashbook.Prelude.Int.{IsI64, IsU64}
use flashbook.Proto.Event.{Event}
use flashbook.Store.Varint.{
  encode_delta_u64, decode_delta_u64, encode_dod_u64, decode_dod_u64, encode_delta_i64,
  decode_delta_i64, encode_zz_i64, decode_zz_i64, encode_v_u32, decode_v_u32,
}
use flashbook.Store.Varint.Columns.{RoundTrip, delta_u64_roundtrip, dod_u64_roundtrip}
use flashbook.Store.Varint.Signed.{IsU32, delta_i64_roundtrip, zz_i64_roundtrip, v_u32_roundtrip}
use flashbook.Store.Varint.Lengths.{
  delta_u64-Sized, dod_u64-Sized, delta_i64-Sized, zz_i64-Sized, v_u32-Sized,
}
use flashbook.Store.Block.{extend, encode_columns, max_block_events, max_body_len}
use flashbook.Store.Block.Encode.{
  IsStorable, joined, joined-sum, columns_state, add_column-eq, encoded, All-map, length-map,
  column_small,
}

module _ (events : List Event) (storable : All IsStorable events)
    (few : length events ≤ max_block_events) where
  -- What the decoder of each column makes of it, and how long it is.
  pub mono_column :
      (front : List ℕ)
      → RoundTrip encode_dod_u64 decode_dod_u64 (map (λ e. e.recv_mono_ns) events) front [] []
  mono_column front =
      dod_u64_roundtrip (map (λ e. e.recv_mono_ns) events) front [] []
        (All-map IsU64 (λ e. e.recv_mono_ns) events (λ e h. h.mono) storable)

  pub wall_column :
      (front : List ℕ)
      → RoundTrip encode_dod_u64 decode_dod_u64 (map (λ e. e.recv_wall_ns) events) front [] []
  wall_column front =
      dod_u64_roundtrip (map (λ e. e.recv_wall_ns) events) front [] []
        (All-map IsU64 (λ e. e.recv_wall_ns) events (λ e h. h.wall) storable)

  pub vts_column :
      (front : List ℕ)
      → RoundTrip encode_delta_u64 decode_delta_u64 (map (λ e. e.venue_ts_ns) events) front [] []
  vts_column front =
      delta_u64_roundtrip (map (λ e. e.venue_ts_ns) events) front [] []
        (All-map IsU64 (λ e. e.venue_ts_ns) events (λ e h. h.vts) storable)

  pub vseq_column :
      (front : List ℕ)
      → RoundTrip encode_delta_u64 decode_delta_u64 (map (λ e. e.venue_seq) events) front [] []
  vseq_column front =
      delta_u64_roundtrip (map (λ e. e.venue_seq) events) front [] []
        (All-map IsU64 (λ e. e.venue_seq) events (λ e h. h.vseq) storable)

  pub price_column :
      (front : List ℕ)
      → RoundTrip encode_delta_i64 decode_delta_i64 (map (λ e. e.price) events) front [] []
  price_column front =
      delta_i64_roundtrip (map (λ e. e.price) events) front [] []
        (All-map IsI64 (λ e. e.price) events (λ e h. h.price) storable)

  pub qty_column :
      (front : List ℕ) → RoundTrip encode_zz_i64 decode_zz_i64 (map (λ e. e.qty) events) front [] []
  qty_column front =
      zz_i64_roundtrip (map (λ e. e.qty) events) front [] []
        (All-map IsI64 (λ e. e.qty) events (λ e h. h.qty) storable)

  pub aux_column :
      (front : List ℕ)
      → RoundTrip encode_delta_u64 decode_delta_u64 (map (λ e. e.aux) events) front [] []
  aux_column front =
      delta_u64_roundtrip (map (λ e. e.aux) events) front [] []
        (All-map IsU64 (λ e. e.aux) events (λ e h. h.aux) storable)

  pub inst_column :
      (front : List ℕ)
      → RoundTrip encode_v_u32 decode_v_u32 (map (λ e. e.instrument) events) front [] []
  inst_column front =
      v_u32_roundtrip (map (λ e. e.instrument) events) front [] []
        (All-map IsU32 (λ e. e.instrument) events (λ e h. h.inst) storable)

  -- `cut` never fails.
  pub encode_columns-encoded : encode_columns events ≡ ok (columns_state (encoded events))
  unfolding encode_columns
  encode_columns-encoded =
      rw
        (
          add_column-eq (encode_dod_u64 (map (λ e. e.recv_mono_ns) events)) ([])
              (encode_dod_u64 (map (λ e. e.recv_mono_ns) events) []) (mono_column _).0
              (omega (
                arith,
                column_small encode_dod_u64 decode_dod_u64 (λ e. e.recv_mono_ns) events
                    dod_u64-Sized few,
              )),
          add_column-eq (encode_dod_u64 (map (λ e. e.recv_wall_ns) events))
              (encode_dod_u64 (map (λ e. e.recv_mono_ns) events) [] ∷ [])
              (encode_dod_u64 (map (λ e. e.recv_wall_ns) events) []) (wall_column _).0
              (omega (
                arith,
                column_small encode_dod_u64 decode_dod_u64 (λ e. e.recv_wall_ns) events
                    dod_u64-Sized few,
              )),
          add_column-eq (encode_delta_u64 (map (λ e. e.venue_ts_ns) events))
              (encode_dod_u64 (map (λ e. e.recv_mono_ns) events) []
                ∷ encode_dod_u64 (map (λ e. e.recv_wall_ns) events) []
                ∷ [])
              (encode_delta_u64 (map (λ e. e.venue_ts_ns) events) []) (vts_column _).0
              (omega (
                arith,
                column_small encode_delta_u64 decode_delta_u64 (λ e. e.venue_ts_ns) events
                    delta_u64-Sized few,
              )),
          add_column-eq (encode_delta_u64 (map (λ e. e.venue_seq) events))
              (encode_dod_u64 (map (λ e. e.recv_mono_ns) events) []
                ∷ encode_dod_u64 (map (λ e. e.recv_wall_ns) events) []
                ∷ encode_delta_u64 (map (λ e. e.venue_ts_ns) events) []
                ∷ [])
              (encode_delta_u64 (map (λ e. e.venue_seq) events) []) (vseq_column _).0
              (omega (
                arith,
                column_small encode_delta_u64 decode_delta_u64 (λ e. e.venue_seq) events
                    delta_u64-Sized few,
              )),
          add_column-eq (encode_delta_i64 (map (λ e. e.price) events))
              (encode_dod_u64 (map (λ e. e.recv_mono_ns) events) []
                ∷ encode_dod_u64 (map (λ e. e.recv_wall_ns) events) []
                ∷ encode_delta_u64 (map (λ e. e.venue_ts_ns) events) []
                ∷ encode_delta_u64 (map (λ e. e.venue_seq) events) []
                ∷ [])
              (encode_delta_i64 (map (λ e. e.price) events) []) (price_column _).0
              (omega (
                arith,
                column_small encode_delta_i64 decode_delta_i64 (λ e. e.price) events delta_i64-Sized
                    few,
              )),
          add_column-eq (encode_zz_i64 (map (λ e. e.qty) events))
              (encode_dod_u64 (map (λ e. e.recv_mono_ns) events) []
                ∷ encode_dod_u64 (map (λ e. e.recv_wall_ns) events) []
                ∷ encode_delta_u64 (map (λ e. e.venue_ts_ns) events) []
                ∷ encode_delta_u64 (map (λ e. e.venue_seq) events) []
                ∷ encode_delta_i64 (map (λ e. e.price) events) []
                ∷ [])
              (encode_zz_i64 (map (λ e. e.qty) events) []) (qty_column _).0
              (omega (
                arith,
                column_small encode_zz_i64 decode_zz_i64 (λ e. e.qty) events zz_i64-Sized few,
              )),
          add_column-eq (encode_delta_u64 (map (λ e. e.aux) events))
              (encode_dod_u64 (map (λ e. e.recv_mono_ns) events) []
                ∷ encode_dod_u64 (map (λ e. e.recv_wall_ns) events) []
                ∷ encode_delta_u64 (map (λ e. e.venue_ts_ns) events) []
                ∷ encode_delta_u64 (map (λ e. e.venue_seq) events) []
                ∷ encode_delta_i64 (map (λ e. e.price) events) []
                ∷ encode_zz_i64 (map (λ e. e.qty) events) []
                ∷ [])
              (encode_delta_u64 (map (λ e. e.aux) events) []) (aux_column _).0
              (omega (
                arith,
                column_small encode_delta_u64 decode_delta_u64 (λ e. e.aux) events delta_u64-Sized
                    few,
              )),
          add_column-eq (encode_v_u32 (map (λ e. e.instrument) events))
              (encode_dod_u64 (map (λ e. e.recv_mono_ns) events) []
                ∷ encode_dod_u64 (map (λ e. e.recv_wall_ns) events) []
                ∷ encode_delta_u64 (map (λ e. e.venue_ts_ns) events) []
                ∷ encode_delta_u64 (map (λ e. e.venue_seq) events) []
                ∷ encode_delta_i64 (map (λ e. e.price) events) []
                ∷ encode_zz_i64 (map (λ e. e.qty) events) []
                ∷ encode_delta_u64 (map (λ e. e.aux) events) []
                ∷ [])
              (encode_v_u32 (map (λ e. e.instrument) events) []) (inst_column _).0
              (omega (
                arith,
                column_small encode_v_u32 decode_v_u32 (λ e. e.instrument) events v_u32-Sized few,
              )),
          add_column-eq (extend (map (λ e. e.kind) events))
              (encode_dod_u64 (map (λ e. e.recv_mono_ns) events) []
                ∷ encode_dod_u64 (map (λ e. e.recv_wall_ns) events) []
                ∷ encode_delta_u64 (map (λ e. e.venue_ts_ns) events) []
                ∷ encode_delta_u64 (map (λ e. e.venue_seq) events) []
                ∷ encode_delta_i64 (map (λ e. e.price) events) []
                ∷ encode_zz_i64 (map (λ e. e.qty) events) []
                ∷ encode_delta_u64 (map (λ e. e.aux) events) []
                ∷ encode_v_u32 (map (λ e. e.instrument) events) []
                ∷ [])
              (map (λ e. e.kind) events) refl (omega (arith, length-map (λ e. e.kind) events)),
          add_column-eq (extend (map (λ e. e.venue) events))
              (encode_dod_u64 (map (λ e. e.recv_mono_ns) events) []
                ∷ encode_dod_u64 (map (λ e. e.recv_wall_ns) events) []
                ∷ encode_delta_u64 (map (λ e. e.venue_ts_ns) events) []
                ∷ encode_delta_u64 (map (λ e. e.venue_seq) events) []
                ∷ encode_delta_i64 (map (λ e. e.price) events) []
                ∷ encode_zz_i64 (map (λ e. e.qty) events) []
                ∷ encode_delta_u64 (map (λ e. e.aux) events) []
                ∷ encode_v_u32 (map (λ e. e.instrument) events) []
                ∷ map (λ e. e.kind) events
                ∷ [])
              (map (λ e. e.venue) events) refl (omega (arith, length-map (λ e. e.venue) events)),
          add_column-eq (extend (map (λ e. e.flags) events))
              (encode_dod_u64 (map (λ e. e.recv_mono_ns) events) []
                ∷ encode_dod_u64 (map (λ e. e.recv_wall_ns) events) []
                ∷ encode_delta_u64 (map (λ e. e.venue_ts_ns) events) []
                ∷ encode_delta_u64 (map (λ e. e.venue_seq) events) []
                ∷ encode_delta_i64 (map (λ e. e.price) events) []
                ∷ encode_zz_i64 (map (λ e. e.qty) events) []
                ∷ encode_delta_u64 (map (λ e. e.aux) events) []
                ∷ encode_v_u32 (map (λ e. e.instrument) events) []
                ∷ map (λ e. e.kind) events
                ∷ map (λ e. e.venue) events
                ∷ [])
              (map (λ e. e.flags) events) refl (omega (arith, length-map (λ e. e.flags) events)),
        )
        refl

  pub joined-length : length (joined (encoded events)) ≤ max_body_len
  joined-length = omega (
    arith,
    column_small encode_dod_u64 decode_dod_u64 (λ e. e.recv_mono_ns) events dod_u64-Sized few,
    column_small encode_dod_u64 decode_dod_u64 (λ e. e.recv_wall_ns) events dod_u64-Sized few,
    column_small encode_delta_u64 decode_delta_u64 (λ e. e.venue_ts_ns) events delta_u64-Sized few,
    column_small encode_delta_u64 decode_delta_u64 (λ e. e.venue_seq) events delta_u64-Sized few,
    column_small encode_delta_i64 decode_delta_i64 (λ e. e.price) events delta_i64-Sized few,
    column_small encode_zz_i64 decode_zz_i64 (λ e. e.qty) events zz_i64-Sized few,
    column_small encode_delta_u64 decode_delta_u64 (λ e. e.aux) events delta_u64-Sized few,
    column_small encode_v_u32 decode_v_u32 (λ e. e.instrument) events v_u32-Sized few,
    length-map (λ e. e.kind) events,
    length-map (λ e. e.venue) events,
    length-map (λ e. e.flags) events,
    joined-sum (encoded events),
  )
