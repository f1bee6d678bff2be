-- ===== src/Store/Block/Decode.antt =====
-- crates/store/src/block.rs: reading a whole block, of either version.
pub mod Select
pub mod Columns
pub mod Decoded
pub mod Pruned
pub mod Joined
pub mod Written
pub mod RoundTrip
use flashbook.Prelude.{
  ℕ, zero, suc, ◌+◌, ◌-◌, ◌*◌, Bool, true, false, Option, none, some, List, [], ◌∷◌, ◌++◌, length,
  map, take, drop, ltb, leb, ◌==◌, ◌&&◌, ◌||◌, not, if◌then◌else◌, Result, ok, err,
}
use flashbook.Prelude.Int.{ℤ, pos}
use flashbook.Prelude.Bytes.{from_le_bytes}
use flashbook.Prelude.Results.{◌>>=◌, ok_or}
use flashbook.Proto.Hasher.{Hasher, hash}
use flashbook.Proto.Event.{Event}
use flashbook.Store.Block.Header.{parse_header, read_body}
use flashbook.Store.Varint.{
  decode_delta_u64, decode_dod_u64, decode_delta_i64, decode_zz_i64, decode_v_u32,
}
use flashbook.Store.Block.{
  block_magic, block_version, block_version_v1, n_columns, header_len_v1, header_len_v2,
  max_block_events, max_body_len, flag_zstd, header_len, BlockError, encode, bad_header, torn,
  corrupt, BlockHeader, total_len, Zstd,
}
use Prim.Native.Nat.{bit_and}
use Prim.Native.String.{String}
use mathlib.Core.List.{foldl}

-- `VarintColumns`
pub record VarintColumns : Type 0 where
  pub mono : List ℕ
  pub wall : List ℕ
  pub vts : List ℕ
  pub vseq : List ℕ
  pub price : List ℤ
  pub qty : List ℤ
  pub aux : List ℕ
  pub inst : List ℕ

-- One column of a version 1 body: where the last one ended.
abbrev pub next_column :
    {A : Type 0}
    → (List ℕ → ℕ → List A → Option (List A × List ℕ))
    → ℕ
    → String
    → List ℕ
    → Result (List A × List ℕ) BlockError
next_column dec n what b = ok_or (dec b n []) (corrupt what)

-- `decode_varint_columns_sequential`, with the byte columns that are left.
unfoldable pub decode_varint_columns_sequential :
    List ℕ → ℕ → Result (VarintColumns × List ℕ) BlockError
decode_varint_columns_sequential body n = do
  (mono, b) ← next_column decode_dod_u64 n "mono column" body
  (wall, b) ← next_column decode_dod_u64 n "wall column" b
  (vts, b) ← next_column decode_delta_u64 n "venue_ts column" b
  (vseq, b) ← next_column decode_delta_u64 n "venue_seq column" b
  (price, b) ← next_column decode_delta_i64 n "price column" b
  (qty, b) ← next_column decode_zz_i64 n "qty column" b
  (aux, b) ← next_column decode_delta_u64 n "aux column" b
  (inst, b) ← next_column decode_v_u32 n "instrument column" b
  let c : VarintColumns = record {
    mono = mono;
    wall = wall;
    vts = vts;
    vseq = vseq;
    price = price;
    qty = qty;
    aux = aux;
    inst = inst;
  }
  if length b == 3 * n then ok (c, b) else err (corrupt "byte columns length")

-- `col_offsets`: where each column starts, and where the last one ends.
unfoldable pub offsets_from : ℕ → List ℕ → List ℕ
offsets_from at [] = at ∷ []
offsets_from at (n ∷ lens) = at ∷ offsets_from (at + n) lens

abbrev pub col_offsets : BlockHeader → List ℕ
col_offsets h = offsets_from 0 h.col_lens

-- `offs[i]`
unfoldable pub offset_at : List ℕ → ℕ → ℕ
offset_at [] i = 0
offset_at (at ∷ offs) zero = at
offset_at (at ∷ offs) (suc i) = offset_at offs i

-- `&body[offs[i]..offs[i + 1]]`
unfoldable pub column_slice : List ℕ → List ℕ → ℕ → List ℕ
column_slice body offs i =
    take (offset_at offs (i + 1) - offset_at offs i) (drop (offset_at offs i) body)

-- A column that was decoded, if its decoder used up the slice.
unfoldable pub exactly : {A : Type 0} → String → List A × List ℕ → Result (List A) BlockError
exactly what (vals, []) = ok vals
exactly what (vals, x ∷ b) = err (corrupt what)

-- `decode_col`
unfoldable pub decode_col :
    {A : Type 0}
    → List ℕ
    → List ℕ
    → ℕ
    → ℕ
    → (List ℕ → ℕ → List A → Option (List A × List ℕ))
    → String
    → Result (List A) BlockError
decode_col body offs i n dec what =
    ok_or (dec (column_slice body offs i) n []) (corrupt what) >>= exactly what

-- The varint columns of a version 2 body.
unfoldable pub decode_varint_columns : List ℕ → List ℕ → ℕ → Result VarintColumns BlockError
decode_varint_columns body offs n = do
  mono ← decode_col body offs 0 n decode_dod_u64 "mono column"
  wall ← decode_col body offs 1 n decode_dod_u64 "wall column"
  vts ← decode_col body offs 2 n decode_delta_u64 "venue_ts column"
  vseq ← decode_col body offs 3 n decode_delta_u64 "venue_seq column"
  price ← decode_col body offs 4 n decode_delta_i64 "price column"
  qty ← decode_col body offs 5 n decode_zz_i64 "qty column"
  aux ← decode_col body offs 6 n decode_delta_u64 "aux column"
  inst ← decode_col body offs 7 n decode_v_u32 "instrument column"
  ok (record {
    mono = mono;
    wall = wall;
    vts = vts;
    vseq = vseq;
    price = price;
    qty = qty;
    aux = aux;
    inst = inst;
  })

-- The columns of either version, and the bytes from the byte columns on.
unfoldable pub block_columns : BlockHeader → List ℕ → Result (VarintColumns × List ℕ) BlockError
block_columns h body =
    if h.version == block_version_v1
    then decode_varint_columns_sequential body h.n_events
    else (decode_varint_columns body (col_offsets h) h.n_events >>= λ c.
        ok (c, drop (offset_at (col_offsets h) 8) body))

-- All columns of a block.
pub record EventColumns : Type 0 where
  pub varints : VarintColumns
  pub kinds : List ℕ
  pub venues : List ℕ
  pub flags : List ℕ

-- The next entry of a column, which has one, and the entries behind it.
abbrev pub head_or {ℓ} : {A : Type ℓ} → A → List A → A
head_or d [] = d
head_or d (x ∷ xs) = x

abbrev pub tail {ℓ} : {A : Type ℓ} → List A → List A
tail [] = []
tail (x ∷ xs) = xs

abbrev pub next_event : EventColumns → Event
next_event c = record {
  recv_mono_ns = head_or 0 c.varints.mono;
  recv_wall_ns = head_or 0 c.varints.wall;
  venue_ts_ns = head_or 0 c.varints.vts;
  venue_seq = head_or 0 c.varints.vseq;
  price = head_or (pos 0) c.varints.price;
  qty = head_or (pos 0) c.varints.qty;
  aux = head_or 0 c.varints.aux;
  instrument = head_or 0 c.varints.inst;
  kind = head_or 0 c.kinds;
  venue = head_or 0 c.venues;
  flags = head_or 0 c.flags;
  rsvd = 0;
}

abbrev pub tails : EventColumns → EventColumns
tails c = record {
  varints = record {
    mono = tail c.varints.mono;
    wall = tail c.varints.wall;
    vts = tail c.varints.vts;
    vseq = tail c.varints.vseq;
    price = tail c.varints.price;
    qty = tail c.varints.qty;
    aux = tail c.varints.aux;
    inst = tail c.varints.inst;
  };
  kinds = tail c.kinds;
  venues = tail c.venues;
  flags = tail c.flags;
}

-- The loop that puts `n` events together, from the first entries of the columns to the last.
unfoldable pub assemble : ℕ → EventColumns → List Event
assemble zero c = []
assemble (suc n) c = next_event c ∷ assemble n (tails c)

-- The byte columns stand one behind the other in `b`.
unfoldable pub event_columns : ℕ → VarintColumns → List ℕ → EventColumns
event_columns n c b = record {
  varints = c;
  kinds = take n b;
  venues = take n (drop n b);
  flags = take n (drop (2 * n) b);
}

module _ (hasher : Hasher) (codec : Zstd) where
  -- `decode_block`: the header, the size of the block, and `out` with its events behind it.
  unfoldable pub decode_block :
      List ℕ → List Event → Result (BlockHeader × ℕ × List Event) BlockError
  decode_block b out = do
    front ← parse_header b
    h ← ok_or front (torn "empty")
    body ← read_body hasher codec b h
    columns ← block_columns h body.0
    ok (h, body.1, out ++ assemble h.n_events (event_columns h.n_events columns.0 columns.1))
