-- ===== src/Store/Block.antt =====
-- crates/store/src/block.rs: blocks of events, stored column by column. `crc32fast` and `zstd` are
-- parameters. A slice that the source takes is in range; where it would not be, it is cut short.
pub mod Encode
pub mod Header
pub mod Decode
use flashbook.Prelude.{
  ℕ, zero, suc, ◌+◌, ◌-◌, ◌*◌, ◌%◌, ◌^◌, Bool, true, false, Option, none, some, List, [], ◌∷◌, ◌++◌,
  length, map, take, drop, ltb, leb, ◌==◌, ◌&&◌, ◌||◌, not, if◌then◌else◌, Result, ok, err, ◌≡◌,
}
use flashbook.Prelude.Int.{ℤ, two_64}
use flashbook.Prelude.Bytes.{le_bytes, from_le_bytes}
use flashbook.Prelude.Results.{◌>>=◌, ok_or}
use flashbook.Proto.Hasher.{Hasher, hash}
use flashbook.Proto.Event.{Event, event_size}
use flashbook.Store.Varint.{
  encode_delta_u64, decode_delta_u64, encode_dod_u64, decode_dod_u64, encode_delta_i64,
  decode_delta_i64, encode_zz_i64, decode_zz_i64, encode_v_u32, decode_v_u32,
}
use Prim.Native.Nat.{min, max, bit_and}
use Prim.Native.String.{String}
use mathlib.Core.List.{foldl}

abbrev pub block_magic : ℕ
block_magic = 0xFB5B_10C4

-- `BLOCK_VERSION` and `BLOCK_VERSION_V1`
abbrev pub block_version : ℕ
block_version = 2

abbrev pub block_version_v1 : ℕ
block_version_v1 = 1

abbrev pub n_columns : ℕ
n_columns = 11

abbrev pub header_len_v1 : ℕ
header_len_v1 = 4 + 1 + 1 + 2 + 4 + 4 + 4 + 8 + 8 + 8 + 8 + 4

abbrev pub header_len_v2 : ℕ
header_len_v2 = header_len_v1 + n_columns * 4

abbrev pub max_block_events : ℕ
max_block_events = 65_536

abbrev pub max_body_len : ℕ
max_body_len = 64 * 1024 * 1024

abbrev pub flag_zstd : ℕ
flag_zstd = 1

-- `header_len`
abbrev pub header_len : ℕ → ℕ
header_len version = if version == block_version_v1 then header_len_v1 else header_len_v2

pub data BlockError : Type 0 where
  encode bad_header torn corrupt : String → BlockError

pub record BlockHeader : Type 0 where
  pub version : ℕ
  pub n_events : ℕ
  pub body_len : ℕ
  pub raw_len : ℕ
  pub zstd : Bool
  pub min_recv_mono : ℕ
  pub max_recv_mono : ℕ
  pub min_recv_wall : ℕ
  pub max_recv_wall : ℕ
  pub crc : ℕ
  pub col_lens : List ℕ

-- `BlockHeader::total_len`
abbrev pub total_len : BlockHeader → ℕ
total_len h = header_len h.version + h.body_len

-- `SizeReport`, and `SizeReport::add_block`
pub record SizeReport : Type 0 where
  pub events : ℕ
  pub event_bytes : ℕ
  pub stored_bytes : ℕ

abbrev pub add_block : BlockHeader → SizeReport → SizeReport
add_block h s = record {
  events = s.events + h.n_events;
  event_bytes = s.event_bytes + h.n_events * event_size;
  stored_bytes = s.stored_bytes + total_len h;
}

-- `zstd::bulk::compress` and `zstd::bulk::decompress`, with the capacity of its result.
pub record Zstd : Type 0 where
  pub compress : List ℕ → ℤ → Option (List ℕ)
  pub decompress : List ℕ → ℕ → Option (List ℕ)

-- What was compressed is decompressed into a buffer of the size that it had.
pub record IsZstd (codec : Zstd) : Type 0 where
  pub undoes :
      (b c : List ℕ) (level : ℤ)
      → codec.compress b level ≡ some c
      → codec.decompress c (length b) ≡ some b

-- The body so far, the mark of the closure `cut`, and the column lengths.
pub record Columns : Type 0 where
  pub body : List ℕ
  pub mark : ℕ
  pub col_lens : List ℕ

abbrev pub fits_u32 : ℕ → Bool
fits_u32 n = ltb n (2 ^ 32)

-- `u32::try_from`
unfoldable pub to_u32 : ℕ → Result ℕ BlockError
to_u32 n = if fits_u32 n then ok n else err (encode "body too large")

-- A column goes to the end of the body, and `cut` notes its length.
add_column : (List ℕ → List ℕ) → Columns → Result Columns BlockError
add_column write c =
    let body = write c.body in
    to_u32 (length body - c.mark) >>= λ n.
    ok (record { body = body; mark = length body; col_lens = c.col_lens ++ (n ∷ []) })

-- `body.extend(..)` with one byte of each event
abbrev extend : List ℕ → List ℕ → List ℕ
extend bytes body = body ++ bytes

pub encode_columns : List Event → Result Columns BlockError
encode_columns events = do
  c ←
      add_column (encode_dod_u64 (map (λ e. e.recv_mono_ns) events))
        (record { body = []; mark = 0; col_lens = [] })
  c ← add_column (encode_dod_u64 (map (λ e. e.recv_wall_ns) events)) c
  c ← add_column (encode_delta_u64 (map (λ e. e.venue_ts_ns) events)) c
  c ← add_column (encode_delta_u64 (map (λ e. e.venue_seq) events)) c
  c ← add_column (encode_delta_i64 (map (λ e. e.price) events)) c
  c ← add_column (encode_zz_i64 (map (λ e. e.qty) events)) c
  c ← add_column (encode_delta_u64 (map (λ e. e.aux) events)) c
  c ← add_column (encode_v_u32 (map (λ e. e.instrument) events)) c
  c ← add_column (extend (map (λ e. e.kind) events)) c
  c ← add_column (extend (map (λ e. e.venue) events)) c
  add_column (extend (map (λ e. e.flags) events)) c

-- The ranges of the two clocks, as the loop over the events leaves them.
abbrev min_of : (Event → ℕ) → List Event → ℕ
min_of field events = foldl (λ m e. min m (field e)) (two_64 - 1) events

abbrev max_of : (Event → ℕ) → List Event → ℕ
max_of field events = foldl (λ m e. max m (field e)) 0 events

-- `events.iter().any(|e| e.rsvd != 0)`
unfoldable pub any_rsvd : List Event → Bool
any_rsvd [] = false
any_rsvd (e ∷ events) = not (e.rsvd == 0) || any_rsvd events

module _ (hasher : Hasher) (codec : Zstd) where
  -- The stored body, and whether it is compressed: only if that is shorter.
  unfoldable pub stored_body : Option ℤ → List ℕ → Result (List ℕ × Bool) BlockError
  stored_body none body = ok (body, false)
  stored_body (some level) body = do
    c ← ok_or (codec.compress body level) (encode "zstd compress failed")
    ok (if ltb (length c) (length body) then (c, true) else (body, false))

  -- The bytes of a header and of the body behind it.
  unfoldable pub block_bytes : List Event → Columns → List ℕ → Bool → List ℕ
  block_bytes events c stored zstd_used =
      le_bytes 4 block_magic
      ++ (block_version ∷ (if zstd_used then flag_zstd else 0) ∷ le_bytes 2 0
          ++ (le_bytes 4 (length events)
              ++ (le_bytes 4 (length stored)
                  ++ (le_bytes 4 (length c.body)
                      ++ (le_bytes 8 (min_of (λ e. e.recv_mono_ns) events)
                          ++ (le_bytes 8 (max_of (λ e. e.recv_mono_ns) events)
                              ++ (le_bytes 8 (min_of (λ e. e.recv_wall_ns) events)
                                  ++ (le_bytes 8 (max_of (λ e. e.recv_wall_ns) events)
                                      ++ (le_bytes 4 (hash hasher stored)
                                          ++ (foldl (λ b n. b ++ le_bytes 4 n) [] c.col_lens
                                              ++ stored))))))))))

  -- `encode_block`: the size of the block, and `out` with the block behind it.
  unfoldable pub encode_block : List Event → Option ℤ → List ℕ → Result (ℕ × List ℕ) BlockError
  encode_block events zstd_level out =
      if length events == 0
      then err (encode "empty block")
      else if ltb max_block_events (length events)
      then err (encode "too many events for one block")
      else if any_rsvd events
      then err (encode "rsvd byte must be 0")
      else do
        c ← encode_columns events
        raw_len ← to_u32 (length c.body)
        stored ← stored_body zstd_level c.body
        body_len ← to_u32 (length stored.0)
        let block = block_bytes events c stored.0 stored.1
        ok (length block, out ++ block)
