-- ===== src/Store/Block/Header.antt =====
-- crates/store/src/block.rs: the header of a block, and its body.
pub mod Table
pub mod Written
use flashbook.Prelude.{
  ℕ, zero, suc, ◌+◌, ◌-◌, ◌*◌, Bool, true, false, Option, none, some, List, [], ◌∷◌, ◌++◌, length,
  map, take, drop, ltb, leb, ◌==◌, ◌&&◌, ◌||◌, not, if◌then◌else◌, Result, ok, err,
}
use flashbook.Prelude.Int.{ℤ, pos}
use flashbook.Prelude.Bytes.{from_le_bytes}
use flashbook.Prelude.Results.{◌>>=◌, ok_or}
use flashbook.Proto.Hasher.{Hasher, hash}
use flashbook.Proto.Event.{Event}
use flashbook.Store.Varint.{
  decode_delta_u64, decode_dod_u64, decode_delta_i64, decode_zz_i64, decode_v_u32,
}
use flashbook.Store.Block.{
  block_magic, block_version, block_version_v1, n_columns, header_len_v1, header_len_v2,
  max_block_events, max_body_len, flag_zstd, header_len, BlockError, encode, bad_header, torn,
  corrupt, BlockHeader, total_len, Zstd,
}
use Prim.Native.Nat.{bit_and}
use Prim.Native.String.{String}
use mathlib.Core.List.{foldl}

-- `b[from..from + n]` as a number
abbrev pub le_slice : List ℕ → ℕ → ℕ → ℕ
le_slice b from n = from_le_bytes (take n (drop from b))

-- The loop that reads the table of column lengths, with `n` columns to go.
unfoldable pub col_lens_from : ℕ → ℕ → List ℕ → List ℕ
col_lens_from zero at b = []
col_lens_from (suc n) at b = le_slice b at 4 ∷ col_lens_from n (at + 4) b

abbrev pub sum : List ℕ → ℕ
sum [] = 0
sum (n ∷ ns) = n + sum ns

unfoldable pub all_equal : ℕ → List ℕ → Bool
all_equal n [] = true
all_equal n (m ∷ ms) = m == n && all_equal n ms

-- The table of a version 2 header, checked; a version 1 header has none.
unfoldable pub read_col_lens : ℕ → ℕ → ℕ → List ℕ → Result (List ℕ) BlockError
read_col_lens version n_events raw_len b =
    let col_lens = col_lens_from n_columns header_len_v1 b in
    if version == block_version_v1
    then ok (0 ∷ 0 ∷ 0 ∷ 0 ∷ 0 ∷ 0 ∷ 0 ∷ 0 ∷ 0 ∷ 0 ∷ 0 ∷ [])
    else if ltb (length b) header_len_v2
    then err (torn "short header")
    else if sum col_lens == raw_len
    then (if all_equal n_events (drop 8 col_lens)
        then ok col_lens
        else err (corrupt "byte column length != n_events"))
    else err (corrupt "column lengths do not sum to raw_len")

-- The header behind the fields that are checked.
unfoldable pub header_of : List ℕ → List ℕ → BlockHeader
header_of b col_lens = record {
  version = le_slice b 4 1;
  n_events = le_slice b 8 4;
  body_len = le_slice b 12 4;
  raw_len = le_slice b 16 4;
  zstd = not (bit_and (le_slice b 5 1) flag_zstd == 0);
  min_recv_mono = le_slice b 20 8;
  max_recv_mono = le_slice b 28 8;
  min_recv_wall = le_slice b 36 8;
  max_recv_wall = le_slice b 44 8;
  crc = le_slice b 52 4;
  col_lens = col_lens;
}

-- `parse_header`
unfoldable pub parse_header : List ℕ → Result (Option BlockHeader) BlockError
parse_header b =
    if length b == 0
    then ok none
    else if ltb (length b) header_len_v1
    then err (torn "short header")
    else if not (le_slice b 0 4 == block_magic)
    then err (bad_header "bad magic")
    else if not (le_slice b 4 1 == block_version_v1) && not (le_slice b 4 1 == block_version)
    then err (bad_header "unsupported version")
    else if le_slice b 8 4 == 0 || ltb max_block_events (le_slice b 8 4)
    then err (bad_header "implausible event count")
    else if ltb max_body_len (le_slice b 12 4) || ltb max_body_len (le_slice b 16 4)
    then err (bad_header "implausible body length")
    else read_col_lens (le_slice b 4 1) (le_slice b 8 4) (le_slice b 16 4) b >>= λ col_lens.
        ok (some (header_of b col_lens))

module _ (hasher : Hasher) (codec : Zstd) where
  -- The stored body, decompressed if need be.
  unfoldable pub raw_body : List ℕ → BlockHeader → Result (List ℕ) BlockError
  raw_body stored h =
      if h.zstd
      then ok_or (codec.decompress stored h.raw_len) (corrupt "zstd decompress failed")
      else ok stored

  -- `read_body`: the body, and the size of the block.
  unfoldable pub read_body : List ℕ → BlockHeader → Result (List ℕ × ℕ) BlockError
  read_body b h =
      let stored = take h.body_len (drop (header_len h.version) b) in
      if ltb (length b) (total_len h)
      then err (torn "body truncated")
      else if hash hasher stored == h.crc
      then (raw_body stored h >>= λ body.
          if length body == h.raw_len
          then ok (body, total_len h)
          else err (corrupt "raw length mismatch"))
      else err (torn "crc mismatch")
