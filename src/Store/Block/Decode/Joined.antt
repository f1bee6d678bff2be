-- ===== src/Store/Block/Decode/Joined.antt =====
-- crates/store/src/block.rs: the columns of a body that `encode_block` wrote, decoded.
use flashbook.Prelude.{
  ℕ, zero, suc, ◌+◌, ◌-◌, ◌*◌, ◌≤◌, ◌≡◌, refl, sym, ap, ap₂, ◌∙◌, arith, Option, List, [], ◌∷◌,
  ◌++◌, length, length-append, map, take, drop, ok, All,
}
use flashbook.Prelude.Results.{◌>>=◌, ok_or}
use flashbook.Prelude.Slices.{take-append, drop-append, slice-append}
use flashbook.Proto.Event.{Event}
use flashbook.Store.Varint.{
  encode_delta_u64, decode_delta_u64, encode_dod_u64, decode_dod_u64, encode_delta_i64,
  decode_delta_i64, encode_zz_i64, decode_zz_i64, encode_v_u32, decode_v_u32,
}
use flashbook.Store.Varint.Columns.{RoundTrip}
use flashbook.Store.Block.{corrupt, max_block_events}
use flashbook.Store.Block.Encode.{IsStorable, joined, encoded, length-map}
use flashbook.Store.Block.Encode.Body.{
  mono_column, wall_column, vts_column, vseq_column, price_column, qty_column, aux_column,
  inst_column,
}
use flashbook.Store.Block.Decode.{
  VarintColumns, offsets_from, offset_at, column_slice, exactly, decode_col, decode_varint_columns,
  event_columns,
}
use flashbook.Store.Block.Decode.Columns.{columns_of}
use Prim.Native.String.{String}
use mathlib.Core.List.{append_assoc, append-nil}

-- Where the columns start is where `offs` says.
drop_columns :
    (i at : ℕ) (front : List ℕ) (cols : List (List ℕ))
    → i ≤ length cols
    → at ≡ length front
    → drop (offset_at (offsets_from at (map length cols)) i) (front ++ joined cols)
      ≡ joined (drop i cols)
unfolding offsets_from offset_at
drop_columns zero at front [] h e = drop-append front [] at e
drop_columns zero at front (c ∷ cols) h e = drop-append front (c ++ joined cols) at e
drop_columns (suc i) at front [] h e = absurd (omega arith)
drop_columns (suc i) at front (c ∷ cols) h e =
    ap (drop (offset_at (offsets_from (at + length c) (map length cols)) i))
      (sym (append_assoc front c (joined cols)))
    ∙ drop_columns i (at + length c) (front ++ c) cols (omega arith)
        (omega (arith, length-append front c))

next_offset :
    (i at : ℕ) (cols : List (List ℕ)) (c : List ℕ) (more : List (List ℕ))
    → drop i cols ≡ c ∷ more
    → offset_at (offsets_from at (map length cols)) (suc i)
      ≡ offset_at (offsets_from at (map length cols)) i + length c
unfolding offsets_from offset_at
next_offset zero at [] c more e = absurd (ground arith)
next_offset zero at (d ∷ []) c more e = ground (arith, e)
next_offset zero at (d ∷ d' ∷ cols) c more e = ground (arith, e)
next_offset (suc i) at [] c more e = absurd (ground arith)
next_offset (suc i) at (d ∷ cols) c more e = next_offset i (at + length d) cols c more e

slice_behind :
    (xs ys zs : List ℕ) (n m : ℕ)
    → n ≡ length xs
    → m ≡ length ys
    → take m (drop n (xs ++ (ys ++ zs))) ≡ ys
slice_behind xs ys zs n m e f =
    ap (λ l. take m (drop n l)) (sym (append_assoc xs ys zs)) ∙ slice-append xs ys zs n m e f

-- The byte columns, cut from the end of the body.
three_columns :
    (n : ℕ) (c : VarintColumns) (kinds venues flags : List ℕ)
    → length kinds ≡ n
    → length venues ≡ n
    → length flags ≡ n
    → event_columns n c (kinds ++ (venues ++ (flags ++ [])))
      ≡ record { varints = c; kinds = kinds; venues = venues; flags = flags }
unfolding event_columns
three_columns n c kinds venues flags e f g =
    rw
      (
        take-append kinds (venues ++ (flags ++ [])) n (sym e),
        slice_behind kinds venues (flags ++ []) n n (sym e) (sym f),
        ap (λ l. take n (drop (2 * n) l)) (sym (append_assoc kinds venues (flags ++ [])))
            ∙ slice_behind (kinds ++ venues) flags [] (2 * n) n
                (omega (arith, e, f, length-append kinds venues)) (sym g),
      )
      refl

abbrev pub offsets : List (List ℕ) → List ℕ
offsets cols = offsets_from 0 (map length cols)

column_slice-joined :
    (i : ℕ) (cols : List (List ℕ)) (c : List ℕ) (more : List (List ℕ))
    → i ≤ length cols
    → drop i cols ≡ c ∷ more
    → column_slice (joined cols) (offsets cols) i ≡ c
unfolding column_slice
column_slice-joined i cols c more h e =
    let next : offset_at (offsets cols) (i + 1) ≡ offset_at (offsets cols) i + length c =
      ap (offset_at (offsets cols)) (omega arith) ∙ next_offset i 0 cols c more e in
    ap₂ take {x = offset_at (offsets cols) (i + 1) - offset_at (offsets cols) i}
      (omega (arith, next)) (drop_columns i 0 [] cols h refl ∙ ap joined e)
    ∙ take-append c (joined more) (length c) refl

decode_col-joined :
    {A : Type 0} (enc : List A → List ℕ → List ℕ)
    (dec : List ℕ → ℕ → List A → Option (List A × List ℕ)) (cols : List (List ℕ)) (i n : ℕ)
    (what : String) (vals : List A) (more : List (List ℕ))
    → RoundTrip enc dec vals [] [] []
    → i ≤ length cols
    → drop i cols ≡ enc vals [] ∷ more
    → length vals ≡ n
    → decode_col (joined cols) (offsets cols) i n dec what ≡ ok vals
unfolding decode_col exactly
decode_col-joined enc dec cols i n what vals more r h e same =
    ap (λ b. ok_or (dec b n []) (corrupt what) >>= exactly what)
      (column_slice-joined i cols (enc vals []) more h e ∙ sym (append-nil (enc vals [])))
    ∙ ap (λ k. ok_or (dec (enc vals [] ++ []) k []) (corrupt what) >>= exactly what) (sym same)
    ∙ ap (λ o. ok_or o (corrupt what) >>= exactly what) r.1

module _ (events : List Event) (storable : All IsStorable events)
    (few : length events ≤ max_block_events) where
  pub decode_varint_columns-joined :
      decode_varint_columns (joined (encoded events)) (offsets (encoded events)) (length events)
      ≡ ok (columns_of events).varints
  unfolding decode_varint_columns
  decode_varint_columns-joined =
      rw
        (
          decode_col-joined encode_dod_u64 decode_dod_u64 (encoded events) 0 (length events)
              "mono column" (map (λ e. e.recv_mono_ns) events) _
              (mono_column events storable few []) (omega arith) refl
              (length-map (λ e. e.recv_mono_ns) events),
          decode_col-joined encode_dod_u64 decode_dod_u64 (encoded events) 1 (length events)
              "wall column" (map (λ e. e.recv_wall_ns) events) _
              (wall_column events storable few []) (omega arith) refl
              (length-map (λ e. e.recv_wall_ns) events),
          decode_col-joined encode_delta_u64 decode_delta_u64 (encoded events) 2 (length events)
              "venue_ts column" (map (λ e. e.venue_ts_ns) events) _
              (vts_column events storable few []) (omega arith) refl
              (length-map (λ e. e.venue_ts_ns) events),
          decode_col-joined encode_delta_u64 decode_delta_u64 (encoded events) 3 (length events)
              "venue_seq column" (map (λ e. e.venue_seq) events) _
              (vseq_column events storable few []) (omega arith) refl
              (length-map (λ e. e.venue_seq) events),
          decode_col-joined encode_delta_i64 decode_delta_i64 (encoded events) 4 (length events)
              "price column" (map (λ e. e.price) events) _ (price_column events storable few [])
              (omega arith) refl (length-map (λ e. e.price) events),
          decode_col-joined encode_zz_i64 decode_zz_i64 (encoded events) 5 (length events)
              "qty column" (map (λ e. e.qty) events) _ (qty_column events storable few [])
              (omega arith) refl (length-map (λ e. e.qty) events),
          decode_col-joined encode_delta_u64 decode_delta_u64 (encoded events) 6 (length events)
              "aux column" (map (λ e. e.aux) events) _ (aux_column events storable few [])
              (omega arith) refl (length-map (λ e. e.aux) events),
          decode_col-joined encode_v_u32 decode_v_u32 (encoded events) 7 (length events)
              "instrument column" (map (λ e. e.instrument) events) _
              (inst_column events storable few []) (omega arith) refl
              (length-map (λ e. e.instrument) events),
        )
        refl

  pub event_columns-joined :
      event_columns
        (length events)
        (columns_of events).varints
        (drop (offset_at (offsets (encoded events)) 8) (joined (encoded events)))
      ≡ columns_of events
  event_columns-joined =
      ap (event_columns (length events) (columns_of events).varints)
        (drop_columns 8 0 [] (encoded events) (omega arith) refl)
      ∙ three_columns (length events) (columns_of events).varints (columns_of events).kinds
          (columns_of events).venues (columns_of events).flags (length-map (λ e. e.kind) events)
          (length-map (λ e. e.venue) events) (length-map (λ e. e.flags) events)
