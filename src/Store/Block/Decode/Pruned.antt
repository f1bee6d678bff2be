-- ===== src/Store/Block/Decode/Pruned.antt =====
-- crates/store/src/block.rs: a selection of columns against the whole block.
use flashbook.Prelude.{
  ℕ, ◌+◌, ◌-◌, ◌*◌, ◌≡◌, refl, sym, ap, ap₂, ◌∙◌, arith, Bool, true, false, some, List, [], length,
  take, drop, ◌==◌, Result, ok, length-take_le, length-drop, Bool-cases, inl, inr,
}
use flashbook.Prelude.Results.{◌>>=◌, ok_or, >>=-eq-ok, ok_or-eq-ok, if_true-eq, if_false-eq, ok_is}
use flashbook.Prelude.Slices.{drop-drop}
use flashbook.Proto.Hasher.{Hasher}
use flashbook.Proto.Event.{Event}
use flashbook.Store.Block.{BlockError, torn, BlockHeader, Zstd, block_version_v1}
use flashbook.Store.Block.Header.{sum, parse_header, read_body}
use flashbook.Store.Block.Header.Table.{IsTabled, parse_header-IsTabled, read_body-length}
use flashbook.Store.Block.Decode.{
  VarintColumns, decode_varint_columns, offsets_from, col_offsets, offset_at, column_slice,
  block_columns, event_columns, assemble, decode_block,
}
use flashbook.Store.Block.Decode.Columns.{HasLength, columns_of, columns_of-assemble}
use flashbook.Store.Block.Decode.Decoded.{
  IsDecoded, decode_varint_columns-IsDecoded, IsDecoded-HasLength, sequential-HasLength,
}
use flashbook.Store.Block.Decode.Select.{
  ColumnSelection, when, selected_col, selected_columns, select, column_data, decode_block_columns,
}

selected_col-ok :
    {A : Type 0} (on : Bool) (r : Result (List A) BlockError) (vals : List A)
    → r ≡ ok vals
    → selected_col on r ≡ ok (when on vals)
unfolding selected_col
selected_col-ok true r vals e = ap (λ x. x >>= λ v. ok (some v)) e
selected_col-ok false r vals e = refl

-- The three byte columns at the end of a body with a table.
record HasBytes (h : BlockHeader) (body : List ℕ) : Type 0 where
  kinds :
      column_slice body (col_offsets h) 8
      ≡ take h.n_events (drop (offset_at (col_offsets h) 8) body)
  venues :
      column_slice body (col_offsets h) 9
      ≡ take h.n_events (drop h.n_events (drop (offset_at (col_offsets h) 8) body))
  flags :
      column_slice body (col_offsets h) 10
      ≡ take h.n_events (drop (2 * h.n_events) (drop (offset_at (col_offsets h) 8) body))
  room : length (drop (offset_at (col_offsets h) 8) body) ≡ 3 * h.n_events

selected_columns-eq :
    (sel : ColumnSelection) (h : BlockHeader) (body : List ℕ) (c : VarintColumns)
    → IsDecoded body (col_offsets h) h.n_events c
    → HasBytes h body
    → selected_columns sel body (col_offsets h) h.n_events
      ≡ ok (select sel (event_columns h.n_events c (drop (offset_at (col_offsets h) 8) body)))
unfolding selected_columns select event_columns
selected_columns-eq sel h body c d bytes =
    rw
      (
        selected_col-ok sel.recv_mono _ c.mono d.mono,
        selected_col-ok sel.recv_wall _ c.wall d.wall,
        selected_col-ok sel.venue_ts _ c.vts d.vts,
        selected_col-ok sel.venue_seq _ c.vseq d.vseq,
        selected_col-ok sel.price _ c.price d.price,
        selected_col-ok sel.qty _ c.qty d.qty,
        selected_col-ok sel.aux _ c.aux d.aux,
        selected_col-ok sel.instrument _ c.inst d.inst,
        bytes.kinds,
        bytes.venues,
        bytes.flags,
      )
      refl

slice_at :
    (a b c j n : ℕ) (body : List ℕ)
    → b ≡ a + j
    → c ≡ b + n
    → take (c - b) (drop b body) ≡ take n (drop j (drop a body))
slice_at a b c j n body e f = ap₂ take (omega arith) (sym (drop-drop a j b body e))

IsTabled-HasBytes :
    (h : BlockHeader) (body : List ℕ) → IsTabled h → length body ≡ h.raw_len → HasBytes h body
unfolding column_slice offset_at offsets_from
IsTabled-HasBytes h body t e =
    let a = 0 + t.mono + t.wall + t.vts + t.vseq + t.price + t.qty + t.aux + t.inst in
    let n = h.n_events in
    record {
      kinds = rw t.shape (slice_at a a (a + n) 0 n body (omega arith) refl);
      venues = rw t.shape (slice_at a (a + n) (a + n + n) n n body refl refl);
      flags = rw t.shape (slice_at a (a + n + n) (a + n + n + n) (2 * n) n body (omega arith) refl);
      room = rw t.shape (omega (arith, length-drop a body, e, t.total, ap sum t.shape));
    }

byte_columns :
    (n : ℕ) (c : VarintColumns) (b : List ℕ)
    → HasLength n c
    → length b ≡ 3 * n
    → columns_of (assemble n (event_columns n c b)) ≡ event_columns n c b
unfolding event_columns
byte_columns n c b h e =
    columns_of-assemble n (event_columns n c b) h (length-take_le n b (omega arith))
      (length-take_le n (drop n b) (omega (arith, length-drop n b)))
      (length-take_le n (drop (2 * n) b) (omega (arith, length-drop (2 * n) b)))

module _ (hasher : Hasher) (codec : Zstd) where
  pruned_body :
      (sel : ColumnSelection) (b : List ℕ) (h : BlockHeader) (body : List ℕ) (size : ℕ)
      (columns : VarintColumns × List ℕ)
      → parse_header b ≡ ok (some h)
      → read_body hasher codec b h ≡ ok (body, size)
      → block_columns h body ≡ ok columns
      → column_data sel h body
        ≡ ok (
            select sel
              (columns_of (assemble h.n_events (event_columns h.n_events columns.0 columns.1))))
  unfolding block_columns column_data
  pruned_body sel b h body size columns parsed read e =
      elim (Bool-cases (h.version == block_version_v1)) [
        | inl v1 ↦
            let d = if_true-eq (h.version == block_version_v1) _ _ e v1 in
            let (lengths, room) = sequential-HasLength body h.n_events columns.0 columns.1 d in
            rw v1 (
              ap
                (λ r. r >>= λ (x : VarintColumns × List ℕ).
                  ok (select sel (event_columns h.n_events x.0 x.1)))
                d
              ∙ ap (λ c. ok (select sel c))
                  (sym (byte_columns h.n_events columns.0 columns.1 lengths room)))
        | inr v2 ↦
            let e2 = if_false-eq (h.version == block_version_v1) _ _ e v2 in
            let (c, d, same) =
              >>=-eq-ok (decode_varint_columns body (col_offsets h) h.n_events) _ e2 in
            let bytes =
              IsTabled-HasBytes h body (parse_header-IsTabled b h parsed v2)
                (read_body-length hasher codec b h body size read) in
            let parts = decode_varint_columns-IsDecoded body (col_offsets h) h.n_events c d in
            let behind = drop (offset_at (col_offsets h) 8) body in
            rw v2 (
              selected_columns-eq sel h body c parts bytes
              ∙ ap (λ x. ok (select sel x))
                  (sym (
                    byte_columns h.n_events c behind
                      (IsDecoded-HasLength body (col_offsets h) h.n_events c parts) bytes.room))
              ∙ ap
                  (λ (x : VarintColumns × List ℕ). ok (
                    select sel
                      (columns_of (assemble h.n_events (event_columns h.n_events x.0 x.1)))))
                  (ok_is same))
      ]

  -- Whatever the bytes are: where `decode_block` decodes a block, of either version, every selection
  -- of columns of the same bytes succeeds, with the same header and size, and gives exactly those
  -- fields of the decoded events, one list for each selected column.
  pub decode_block_columns-select :
      (b : List ℕ) (sel : ColumnSelection) (h : BlockHeader) (size : ℕ) (events : List Event)
      → decode_block hasher codec b [] ≡ ok (h, size, events)
      → decode_block_columns hasher codec b sel ≡ ok (h, size, select sel (columns_of events))
  unfolding decode_block decode_block_columns
  decode_block_columns-select b sel h size events e =
      let (front, parsed, e1) = >>=-eq-ok (parse_header b) _ e in
      let (g, e2, e3) = >>=-eq-ok (ok_or front (torn "empty")) _ e1 in
      let (body, read, e4) = >>=-eq-ok (read_body hasher codec b g) _ e3 in
      let (columns, d, e5) = >>=-eq-ok (block_columns g body.0) _ e4 in
      let found = parsed ∙ ap ok (ok_or-eq-ok front _ e2) in
      let pruned = pruned_body sel b g body.0 body.1 columns found read d in
      ap
        (λ r. r >>= λ front. ok_or front (torn "empty") >>= λ h.
          read_body hasher codec b h >>= λ body.
          column_data sel h body.0 >>= λ columns. ok (h, body.1, columns))
        found
      ∙ ap
          (λ r. r >>= λ (body : List ℕ × ℕ).
            column_data sel g body.0 >>= λ columns. ok (g, body.1, columns))
          read
      ∙ ap (λ r. r >>= λ columns. ok (g, body.1, columns)) pruned
      ∙ ap (λ (x : BlockHeader × ℕ × List Event). ok (x.0, x.1, select sel (columns_of x.2)))
          (ok_is e5)
