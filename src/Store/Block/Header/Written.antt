-- ===== src/Store/Block/Header/Written.antt =====
-- crates/store/src/block.rs: the header that `encode_block` writes, parsed.
use flashbook.Prelude.{
  ℕ, ◌+◌, ◌^◌, ◌≤◌, ◌<◌, ◌≡◌, refl, arith, Bool, true, false, some, List, [], ◌∷◌, ◌++◌, length,
  ltb, ◌==◌, ◌||◌, not, if◌then◌else◌, ok,
}
use flashbook.Prelude.Int.{IsU64}
use flashbook.Prelude.Bytes.{le_bytes, from_le_bytes, from_le_bytes-le_bytes}
use flashbook.Store.Block.{
  block_magic, block_version, max_block_events, max_body_len, flag_zstd, BlockHeader, header_len_v1,
  header_len_v2,
}
use flashbook.Store.Block.Header.{
  le_slice, sum, col_lens_from, all_equal, read_col_lens, header_of, parse_header,
}
use Prim.Native.Nat.{bit_and}
use mathlib.Core.List.{foldl}

-- What is in a header, apart from the constants.
pub record Fields : Type 0 where
  pub zstd : Bool
  pub n : ℕ
  pub body_len : ℕ
  pub raw_len : ℕ
  pub min_mono : ℕ
  pub max_mono : ℕ
  pub min_wall : ℕ
  pub max_wall : ℕ
  pub crc : ℕ
  pub l0 : ℕ
  pub l1 : ℕ
  pub l2 : ℕ
  pub l3 : ℕ
  pub l4 : ℕ
  pub l5 : ℕ
  pub l6 : ℕ
  pub l7 : ℕ

abbrev pub lens_of : Fields → List ℕ
lens_of f = f.l0 ∷ f.l1 ∷ f.l2 ∷ f.l3 ∷ f.l4 ∷ f.l5 ∷ f.l6 ∷ f.l7 ∷ f.n ∷ f.n ∷ f.n ∷ []

abbrev pub header_bytes : Fields → List ℕ
header_bytes f =
    le_bytes 4 block_magic
    ++ (block_version ∷ (if f.zstd then flag_zstd else 0) ∷ le_bytes 2 0
        ++ (le_bytes 4 f.n
            ++ (le_bytes 4 f.body_len
                ++ (le_bytes 4 f.raw_len
                    ++ (le_bytes 8 f.min_mono
                        ++ (le_bytes 8 f.max_mono
                            ++ (le_bytes 8 f.min_wall
                                ++ (le_bytes 8 f.max_wall
                                    ++ (le_bytes 4 f.crc
                                        ++ foldl (λ b n. b ++ le_bytes 4 n) [] (lens_of f))))))))))

-- The fields are in range, and the lengths fit together.
pub record IsPlausible (f : Fields) : Type 0 where
  pub some_events : 0 < f.n
  pub few_events : f.n ≤ max_block_events
  pub body_fits : f.body_len ≤ max_body_len
  pub raw_fits : f.raw_len ≤ max_body_len
  pub min_mono : IsU64 f.min_mono
  pub max_mono : IsU64 f.max_mono
  pub min_wall : IsU64 f.min_wall
  pub max_wall : IsU64 f.max_wall
  pub crc : f.crc < 2 ^ 32
  pub total : sum (lens_of f) ≡ f.raw_len

abbrev pub header_fields : Fields → BlockHeader
header_fields f = record {
  version = block_version;
  n_events = f.n;
  body_len = f.body_len;
  raw_len = f.raw_len;
  zstd = f.zstd;
  min_recv_mono = f.min_mono;
  max_recv_mono = f.max_mono;
  min_recv_wall = f.min_wall;
  max_recv_wall = f.max_wall;
  crc = f.crc;
  col_lens = lens_of f;
}

both_small : (a c m : ℕ) → a ≤ m → c ≤ m → (ltb m a || ltb m c) ≡ false
both_small a c m h g = ground arith

in_bounds : (a m : ℕ) → 0 < a → a ≤ m → (a == 0 || ltb m a) ≡ false
in_bounds a m h g = ground arith

module _ (f : Fields) (h : IsPlausible f) (t : List ℕ) where
  abbrev pub b : List ℕ
  b = header_bytes f ++ t

  flag_read :
      (z : Bool)
      → not (bit_and (from_le_bytes ((if z then flag_zstd else 0) ∷ [])) flag_zstd == 0) ≡ z
  unfolding from_le_bytes
  flag_read true = refl
  flag_read false = refl

  lens_read : col_lens_from 11 56 b ≡ lens_of f
  unfolding le_bytes from_le_bytes col_lens_from
  lens_read =
      rw
        (
          from_le_bytes-le_bytes 4 f.l0 (omega (arith, h.total, h.raw_fits)),
          from_le_bytes-le_bytes 4 f.l1 (omega (arith, h.total, h.raw_fits)),
          from_le_bytes-le_bytes 4 f.l2 (omega (arith, h.total, h.raw_fits)),
          from_le_bytes-le_bytes 4 f.l3 (omega (arith, h.total, h.raw_fits)),
          from_le_bytes-le_bytes 4 f.l4 (omega (arith, h.total, h.raw_fits)),
          from_le_bytes-le_bytes 4 f.l5 (omega (arith, h.total, h.raw_fits)),
          from_le_bytes-le_bytes 4 f.l6 (omega (arith, h.total, h.raw_fits)),
          from_le_bytes-le_bytes 4 f.l7 (omega (arith, h.total, h.raw_fits)),
          from_le_bytes-le_bytes 4 f.n (omega (arith, h.few_events)),
        )
        refl

  pub length_100 : length b ≡ 100 + length t
  unfolding le_bytes
  length_100 = omega arith

  lens_pass : all_equal f.n (f.n ∷ f.n ∷ f.n ∷ []) ≡ true
  unfolding all_equal
  lens_pass = ground arith

  col_lens_pass : read_col_lens block_version f.n f.raw_len b ≡ ok (lens_of f)
  unfolding read_col_lens
  col_lens_pass =
      let long : ltb (length b) header_len_v2 ≡ false = ground (arith, length_100) in
      let total : (sum (lens_of f) == f.raw_len) ≡ true = ground (arith, h.total) in
      rw (lens_read, long, total, lens_pass) refl

  n_read : le_slice b 8 4 ≡ f.n
  unfolding le_bytes from_le_bytes
  n_read = from_le_bytes-le_bytes 4 f.n (omega (arith, h.few_events))

  body_len_read : le_slice b 12 4 ≡ f.body_len
  unfolding le_bytes from_le_bytes
  body_len_read = from_le_bytes-le_bytes 4 f.body_len (omega (arith, h.body_fits))

  raw_len_read : le_slice b 16 4 ≡ f.raw_len
  unfolding le_bytes from_le_bytes
  raw_len_read = from_le_bytes-le_bytes 4 f.raw_len (omega (arith, h.raw_fits))

  header_read : header_of b (lens_of f) ≡ header_fields f
  unfolding header_of le_bytes from_le_bytes
  header_read =
      let flag_is : not (bit_and (le_slice b 5 1) flag_zstd == 0) ≡ f.zstd = flag_read f.zstd in
      let min_mono_is : le_slice b 20 8 ≡ f.min_mono =
        from_le_bytes-le_bytes 8 f.min_mono h.min_mono in
      let max_mono_is : le_slice b 28 8 ≡ f.max_mono =
        from_le_bytes-le_bytes 8 f.max_mono h.max_mono in
      let min_wall_is : le_slice b 36 8 ≡ f.min_wall =
        from_le_bytes-le_bytes 8 f.min_wall h.min_wall in
      let max_wall_is : le_slice b 44 8 ≡ f.max_wall =
        from_le_bytes-le_bytes 8 f.max_wall h.max_wall in
      let crc_is : le_slice b 52 4 ≡ f.crc = from_le_bytes-le_bytes 4 f.crc h.crc in
      rw
        (
          n_read, body_len_read, raw_len_read, flag_is, min_mono_is, max_mono_is, min_wall_is,
          max_wall_is, crc_is,
        )
        refl

  magic_read : le_slice b 0 4 ≡ block_magic
  unfolding le_bytes from_le_bytes
  magic_read = refl

  version_read : le_slice b 4 1 ≡ block_version
  unfolding le_bytes from_le_bytes
  version_read = refl

  -- The header is parsed as it was written, with whatever stands behind it.
  pub parse_header-header_bytes : parse_header b ≡ ok (some (header_fields f))
  unfolding parse_header
  parse_header-header_bytes =
      let more : (length b == 0) ≡ false = ground (arith, length_100) in
      let long : ltb (length b) header_len_v1 ≡ false = ground (arith, length_100) in
      let events : (f.n == 0 || ltb max_block_events f.n) ≡ false =
        in_bounds f.n max_block_events h.some_events h.few_events in
      let sizes : (ltb max_body_len f.body_len || ltb max_body_len f.raw_len) ≡ false =
        both_small f.body_len f.raw_len max_body_len h.body_fits h.raw_fits in
      rw
        (
          more, long, magic_read, version_read, n_read, events, body_len_read, raw_len_read, sizes,
          col_lens_pass, header_read,
        )
        refl
