-- ===== src/Store/Tests.antt =====
-- The encodings and a block at concrete inputs, and the theorems there.
use flashbook.Prelude.{
  ℕ, ◌+◌, ◌-◌, ◌≤◌, ◌<◌, ◌≡◌, refl, arith, none, some, true, List, [], ◌∷◌, ◌++◌, All, drop, length,
  ◌>>=◌, ap, sym, ◌⊎◌, ok, false,
}
use flashbook.Prelude.Int.{ℤ, pos, negsuc, two_63, two_64, IsU64, IsI64}
use flashbook.Store.Varint.{
  zigzag, unzigzag, put_uvarint, take_uvarint, encode_delta_u64, decode_delta_u64, encode_dod_u64,
  decode_dod_u64, encode_delta_i64, decode_delta_i64, encode_zz_i64, decode_zz_i64, encode_v_u32,
  decode_v_u32,
}
use flashbook.Proto.Event.{Event, zero_event}
use flashbook.Proto.Hasher.Counting.{counting, counting-IsCrc32}
use flashbook.Store.Block.{Zstd, IsZstd}
use flashbook.Store.Block.Encode.{IsStorable, joined, encoded}
use flashbook.Store.Block.Header.Written.{header_bytes, header_fields, Fields}
use flashbook.Store.Block.Header.{raw_body}
use flashbook.Store.Block.Decode.{decode_block}
use flashbook.Store.Block.Decode.Written.{fields, decode_block-fields}
use flashbook.Store.Block.Decode.Columns.{columns_of}
use flashbook.Store.Block.Decode.RoundTrip.{Written, CompressFailed, decode_block-encode_block}
use flashbook.Store.Block.Decode.Pruned.{decode_block_columns-select}
use flashbook.Store.Block.Decode.Select.{ColumnSelection, no_columns, decode_block_columns, select}
use flashbook.Store.Varint.Zigzag.{unzigzag-zigzag, zigzag-unzigzag}
use flashbook.Store.Varint.Uvarint.{take_uvarint-put_uvarint, take_uvarint_bounds}
use flashbook.Store.Varint.Columns.{RoundTrip, delta_u64_roundtrip, dod_u64_roundtrip}
use flashbook.Store.Varint.Signed.{delta_i64_roundtrip, zz_i64_roundtrip, v_u32_roundtrip}

zigzag_min : zigzag (negsuc (two_63 - 1)) ≡ two_64 - 1
unfolding zigzag
zigzag_min = refl

put_300 : put_uvarint [] 300 ≡ 0xac ∷ 0x02 ∷ []
unfolding put_uvarint
put_300 = refl

-- A padded number, which the encoder never writes, is accepted.
take_padded : take_uvarint (0x80 ∷ 0x00 ∷ 7 ∷ []) ≡ some (0, 7 ∷ [])
unfolding take_uvarint
take_padded = refl

take_truncated : take_uvarint (0x80 ∷ []) ≡ none
unfolding take_uvarint
take_truncated = refl

unzigzag-zigzag_example : unzigzag (zigzag (negsuc 41)) ≡ negsuc 41
unzigzag-zigzag_example = unzigzag-zigzag (negsuc 41) (omega arith, omega arith)

zigzag-unzigzag_example : zigzag (unzigzag 83) ≡ 83
zigzag-unzigzag_example = zigzag-unzigzag 83 (omega arith)

take_uvarint-put_uvarint_example :
    take_uvarint (put_uvarint [] 300 ++ (9 ∷ [])) ≡ some (300, 9 ∷ [])
take_uvarint-put_uvarint_example = take_uvarint-put_uvarint 300 (9 ∷ []) (omega arith)

take_uvarint_bounds_example :
    (1 < 3) × (3 ≤ 1 + 10) × (take_uvarint (0x80 ∷ 0x00 ∷ 7 ∷ 8 ∷ []) ≡ some (0, 7 ∷ 8 ∷ []))
take_uvarint_bounds_example =
    take_uvarint_bounds (0x80 ∷ 0x00 ∷ 7 ∷ []) (8 ∷ []) 0 (7 ∷ []) take_padded

abbrev stamps : List ℕ
stamps = 1_700_000_000 ∷ 1_700_001_000 ∷ 1_700_002_000 ∷ 5 ∷ []

delta_u64_roundtrip_example :
    RoundTrip encode_delta_u64 decode_delta_u64 stamps (1 ∷ []) (2 ∷ []) (3 ∷ [])
delta_u64_roundtrip_example = delta_u64_roundtrip stamps (1 ∷ []) (2 ∷ []) (3 ∷ []) (omega arith)

dod_u64_roundtrip_example :
    RoundTrip encode_dod_u64 decode_dod_u64 stamps (1 ∷ []) (2 ∷ []) (3 ∷ [])
dod_u64_roundtrip_example = dod_u64_roundtrip stamps (1 ∷ []) (2 ∷ []) (3 ∷ []) (omega arith)

abbrev prices : List ℤ
prices = pos 6_358_964 ∷ negsuc 2 ∷ pos 0 ∷ []

delta_i64_roundtrip_example :
    RoundTrip encode_delta_i64 decode_delta_i64 prices [] (2 ∷ []) (pos 3 ∷ [])
delta_i64_roundtrip_example = delta_i64_roundtrip prices [] (2 ∷ []) (pos 3 ∷ []) (omega arith)

zz_i64_roundtrip_example : RoundTrip encode_zz_i64 decode_zz_i64 prices [] (2 ∷ []) []
zz_i64_roundtrip_example = zz_i64_roundtrip prices [] (2 ∷ []) [] (omega arith)

v_u32_roundtrip_example : RoundTrip encode_v_u32 decode_v_u32 (7 ∷ 300 ∷ []) [] (2 ∷ []) []
v_u32_roundtrip_example = v_u32_roundtrip (7 ∷ 300 ∷ []) [] (2 ∷ []) [] (omega arith)

-- A compressor that puts a byte in front, which its decompressor drops.
abbrev prefixing : Zstd
prefixing = record { compress = λ b level. some (0 ∷ b); decompress = λ c n. some (drop 1 c) }

prefixing-IsZstd : IsZstd prefixing
prefixing-IsZstd = record { undoes = λ b c level e. ap (λ o. o >>= λ d. some (drop 1 d)) (sym e) }

-- Two events, and their prices and kinds alone.
abbrev two_events : List Event
two_events =
    record zero_event { recv_mono_ns = 5; price = negsuc 2; kind = 4 }
    ∷ record zero_event { recv_mono_ns = 9; price = pos 300; kind = 1 }
    ∷ []

two_events-IsStorable : All IsStorable two_events
two_events-IsStorable = (
  storable 5 (negsuc 2) 4 (omega arith) (omega arith, omega arith),
  (storable 9 (pos 300) 1 (omega arith) (omega arith, omega arith), tt),
)
  where
    storable :
        (mono : ℕ) (price : ℤ) (kind : ℕ)
        → IsU64 mono
        → IsI64 price
        → IsStorable (record zero_event { recv_mono_ns = mono; price = price; kind = kind })
    storable mono price kind h g = record {
      mono = h;
      wall = omega arith;
      vts = omega arith;
      vseq = omega arith;
      price = g;
      qty = (omega arith, omega arith);
      aux = omega arith;
      inst = omega arith;
      no_rsvd = refl;
    }

decode_block-encode_block_example :
    CompressFailed counting counting-IsCrc32 prefixing prefixing-IsZstd two_events
      two_events-IsStorable
      (omega arith)
      (omega arith)
      (some (pos 3))
      (7 ∷ [])
    ⊎ Written counting counting-IsCrc32 prefixing prefixing-IsZstd two_events two_events-IsStorable
        (omega arith)
        (omega arith)
        (some (pos 3))
        (7 ∷ [])
        (8 ∷ 9 ∷ [])
        (zero_event ∷ [])
decode_block-encode_block_example =
    decode_block-encode_block counting counting-IsCrc32 prefixing prefixing-IsZstd two_events
      two_events-IsStorable (omega arith) (omega arith) (some (pos 3)) (7 ∷ []) (8 ∷ 9 ∷ [])
      (zero_event ∷ [])

abbrev price_and_kind : ColumnSelection
price_and_kind = record no_columns { price = true; kind = true }

-- The block of the two events.
abbrev two_fields : Fields
two_fields =
    fields counting counting-IsCrc32 prefixing two_events two_events-IsStorable (omega arith)
      (omega arith) (joined (encoded two_events)) false

two_decoded :
    decode_block counting prefixing
      (header_bytes two_fields ++ (joined (encoded two_events) ++ []))
      []
    ≡ ok (header_fields two_fields, 100 + length (joined (encoded two_events)), two_events)
unfolding raw_body
two_decoded =
    decode_block-fields counting counting-IsCrc32 prefixing two_events two_events-IsStorable
      (omega arith) (omega arith) (joined (encoded two_events)) false (omega arith) [] [] refl

decode_block_columns-select_example :
    decode_block_columns counting prefixing
      (header_bytes two_fields ++ (joined (encoded two_events) ++ []))
      price_and_kind
    ≡ ok (
      header_fields two_fields,
      100 + length (joined (encoded two_events)),
      select price_and_kind (columns_of two_events),
    )
decode_block_columns-select_example =
    decode_block_columns-select counting prefixing _ price_and_kind (header_fields two_fields) _
      two_events two_decoded
