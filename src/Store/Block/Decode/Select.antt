-- ===== src/Store/Block/Decode/Select.antt =====
-- crates/store/src/block.rs: reading only the columns of a selection.
use flashbook.Prelude.{
  ℕ, Bool, true, false, Option, none, some, List, ◌==◌, if◌then◌else◌, Result, ok,
}
use flashbook.Prelude.Int.{ℤ}
use flashbook.Prelude.Results.{◌>>=◌, ok_or}
use flashbook.Proto.Hasher.{Hasher}
use flashbook.Store.Block.Header.{parse_header, read_body}
use flashbook.Store.Block.Decode.{
  EventColumns, decode_col, column_slice, col_offsets, decode_varint_columns_sequential,
  event_columns,
}
use flashbook.Store.Varint.{
  decode_delta_u64, decode_dod_u64, decode_delta_i64, decode_zz_i64, decode_v_u32,
}
use flashbook.Store.Block.{block_version_v1, BlockError, torn, BlockHeader, Zstd}

-- `ColumnSelection`
pub record ColumnSelection : Type 0 where
  pub recv_mono : Bool
  pub recv_wall : Bool
  pub venue_ts : Bool
  pub venue_seq : Bool
  pub price : Bool
  pub qty : Bool
  pub aux : Bool
  pub instrument : Bool
  pub kind : Bool
  pub venue : Bool
  pub flags : Bool

-- `ColumnSelection::NONE` and `ColumnSelection::ALL`
abbrev pub no_columns : ColumnSelection
no_columns = record {
  recv_mono = false;
  recv_wall = false;
  venue_ts = false;
  venue_seq = false;
  price = false;
  qty = false;
  aux = false;
  instrument = false;
  kind = false;
  venue = false;
  flags = false;
}

abbrev pub all_columns : ColumnSelection
all_columns = record {
  recv_mono = true;
  recv_wall = true;
  venue_ts = true;
  venue_seq = true;
  price = true;
  qty = true;
  aux = true;
  instrument = true;
  kind = true;
  venue = true;
  flags = true;
}

-- `ColumnData`
pub record ColumnData : Type 0 where
  pub recv_mono : Option (List ℕ)
  pub recv_wall : Option (List ℕ)
  pub venue_ts : Option (List ℕ)
  pub venue_seq : Option (List ℕ)
  pub price : Option (List ℤ)
  pub qty : Option (List ℤ)
  pub aux : Option (List ℕ)
  pub instrument : Option (List ℕ)
  pub kind : Option (List ℕ)
  pub venue : Option (List ℕ)
  pub flags : Option (List ℕ)

-- `copy_byte_col`, and `then_some` on a column.
abbrev pub when : {A : Type 0} → Bool → A → Option A
when on v = if on then some v else none

-- The macro `varint_col`: the column is decoded only if it is selected.
unfoldable pub selected_col :
    {A : Type 0} → Bool → Result (List A) BlockError → Result (Option (List A)) BlockError
selected_col true r = r >>= λ vals. ok (some vals)
selected_col false r = ok none

-- The selected columns of a version 2 body.
unfoldable pub selected_columns :
    ColumnSelection → List ℕ → List ℕ → ℕ → Result ColumnData BlockError
selected_columns sel body offs n = do
  mono ← selected_col sel.recv_mono (decode_col body offs 0 n decode_dod_u64 "mono column")
  wall ← selected_col sel.recv_wall (decode_col body offs 1 n decode_dod_u64 "wall column")
  vts ← selected_col sel.venue_ts (decode_col body offs 2 n decode_delta_u64 "venue_ts column")
  vseq ← selected_col sel.venue_seq (decode_col body offs 3 n decode_delta_u64 "venue_seq column")
  price ← selected_col sel.price (decode_col body offs 4 n decode_delta_i64 "price column")
  qty ← selected_col sel.qty (decode_col body offs 5 n decode_zz_i64 "qty column")
  aux ← selected_col sel.aux (decode_col body offs 6 n decode_delta_u64 "aux column")
  inst ← selected_col sel.instrument (decode_col body offs 7 n decode_v_u32 "instrument column")
  ok (record {
    recv_mono = mono;
    recv_wall = wall;
    venue_ts = vts;
    venue_seq = vseq;
    price = price;
    qty = qty;
    aux = aux;
    instrument = inst;
    kind = when sel.kind (column_slice body offs 8);
    venue = when sel.venue (column_slice body offs 9);
    flags = when sel.flags (column_slice body offs 10);
  })

-- The selected ones of columns that are all decoded.
unfoldable pub select : ColumnSelection → EventColumns → ColumnData
select sel c = record {
  recv_mono = when sel.recv_mono c.varints.mono;
  recv_wall = when sel.recv_wall c.varints.wall;
  venue_ts = when sel.venue_ts c.varints.vts;
  venue_seq = when sel.venue_seq c.varints.vseq;
  price = when sel.price c.varints.price;
  qty = when sel.qty c.varints.qty;
  aux = when sel.aux c.varints.aux;
  instrument = when sel.instrument c.varints.inst;
  kind = when sel.kind c.kinds;
  venue = when sel.venue c.venues;
  flags = when sel.flags c.flags;
}

-- The columns of a selection; a version 1 body is decoded whole.
unfoldable pub column_data : ColumnSelection → BlockHeader → List ℕ → Result ColumnData BlockError
column_data sel h body =
    if h.version == block_version_v1
    then (decode_varint_columns_sequential body h.n_events >>= λ x.
        ok (select sel (event_columns h.n_events x.0 x.1)))
    else selected_columns sel body (col_offsets h) h.n_events

module _ (hasher : Hasher) (codec : Zstd) where
  -- `decode_block_columns`, where it succeeds; what `out` held before is overwritten.
  unfoldable pub decode_block_columns :
      List ℕ → ColumnSelection → Result (BlockHeader × ℕ × ColumnData) BlockError
  decode_block_columns b sel = do
    front ← parse_header b
    h ← ok_or front (torn "empty")
    body ← read_body hasher codec b h
    columns ← column_data sel h body.0
    ok (h, body.1, columns)
