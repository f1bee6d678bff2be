-- ===== src/Store/Block/Decode/Decoded.antt =====
-- crates/store/src/block.rs: what a decoding that succeeds has decoded.
use flashbook.Prelude.{
  ℕ, ◌*◌, ◌≡◌, sym, ap, ◌∙◌, arith, Option, List, [], ◌∷◌, length, ◌==◌, ==→eq, if◌then◌else◌,
  Result, ok, err,
}
use flashbook.Prelude.Results.{◌>>=◌, ok_or, >>=-eq-ok, ok_or-eq-ok, required-eq-ok, ok_is}
use flashbook.Store.Varint.{
  encode_delta_u64, decode_delta_u64, encode_dod_u64, decode_dod_u64, encode_delta_i64,
  decode_delta_i64, encode_zz_i64, decode_zz_i64, encode_v_u32, decode_v_u32,
}
use flashbook.Store.Varint.Lengths.{
  Sized, delta_u64-Sized, dod_u64-Sized, delta_i64-Sized, zz_i64-Sized, v_u32-Sized,
}
use flashbook.Store.Block.{BlockError, corrupt}
use flashbook.Store.Block.Decode.{
  VarintColumns, next_column, decode_varint_columns_sequential, exactly, decode_col, column_slice,
  decode_varint_columns,
}
use flashbook.Store.Block.Decode.Columns.{HasLength}
use mathlib.Core.Path.{subst}
use Prim.Native.String.{String}

-- The columns of a version 2 body, each decoded from its slice.
pub record IsDecoded (body offs : List ℕ) (n : ℕ) (c : VarintColumns) : Type 0 where
  pub mono : decode_col body offs 0 n decode_dod_u64 "mono column" ≡ ok c.mono
  pub wall : decode_col body offs 1 n decode_dod_u64 "wall column" ≡ ok c.wall
  pub vts : decode_col body offs 2 n decode_delta_u64 "venue_ts column" ≡ ok c.vts
  pub vseq : decode_col body offs 3 n decode_delta_u64 "venue_seq column" ≡ ok c.vseq
  pub price : decode_col body offs 4 n decode_delta_i64 "price column" ≡ ok c.price
  pub qty : decode_col body offs 5 n decode_zz_i64 "qty column" ≡ ok c.qty
  pub aux : decode_col body offs 6 n decode_delta_u64 "aux column" ≡ ok c.aux
  pub inst : decode_col body offs 7 n decode_v_u32 "instrument column" ≡ ok c.inst

pub decode_varint_columns-IsDecoded :
    (body offs : List ℕ) (n : ℕ) (c : VarintColumns)
    → decode_varint_columns body offs n ≡ ok c
    → IsDecoded body offs n c
unfolding decode_varint_columns
decode_varint_columns-IsDecoded body offs n c e =
    let (mono, d0, e0) = >>=-eq-ok (decode_col body offs 0 n decode_dod_u64 "mono column") _ e in
    let (wall, d1, e1) = >>=-eq-ok (decode_col body offs 1 n decode_dod_u64 "wall column") _ e0 in
    let (vts, d2, e2) =
      >>=-eq-ok (decode_col body offs 2 n decode_delta_u64 "venue_ts column") _ e1 in
    let (vseq, d3, e3) =
      >>=-eq-ok (decode_col body offs 3 n decode_delta_u64 "venue_seq column") _ e2 in
    let (price, d4, e4) =
      >>=-eq-ok (decode_col body offs 4 n decode_delta_i64 "price column") _ e3 in
    let (qty, d5, e5) = >>=-eq-ok (decode_col body offs 5 n decode_zz_i64 "qty column") _ e4 in
    let (aux, d6, e6) = >>=-eq-ok (decode_col body offs 6 n decode_delta_u64 "aux column") _ e5 in
    let (inst, d7, e7) =
      >>=-eq-ok (decode_col body offs 7 n decode_v_u32 "instrument column") _ e6 in
    let same = ok_is e7 in
    record {
      mono = d0 ∙ ap (λ (x : VarintColumns). ok x.mono) same;
      wall = d1 ∙ ap (λ (x : VarintColumns). ok x.wall) same;
      vts = d2 ∙ ap (λ (x : VarintColumns). ok x.vts) same;
      vseq = d3 ∙ ap (λ (x : VarintColumns). ok x.vseq) same;
      price = d4 ∙ ap (λ (x : VarintColumns). ok x.price) same;
      qty = d5 ∙ ap (λ (x : VarintColumns). ok x.qty) same;
      aux = d6 ∙ ap (λ (x : VarintColumns). ok x.aux) same;
      inst = d7 ∙ ap (λ (x : VarintColumns). ok x.inst) same;
    }

decode_col-length :
    {A : Type 0} (enc : List A → List ℕ → List ℕ)
    (dec : List ℕ → ℕ → List A → Option (List A × List ℕ)) (body offs : List ℕ) (i n : ℕ)
    (what : String) (vals : List A)
    → Sized enc dec
    → decode_col body offs i n dec what ≡ ok vals
    → length vals ≡ n
unfolding decode_col exactly
decode_col-length {A} enc dec body offs i n what vals s e =
    let (x, d, used) = >>=-eq-ok (ok_or (dec (column_slice body offs i) n []) (corrupt what)) _ e in
    all_used x.0 x.1 used ∙ s.1 n _ x.0 x.1 (ok_or-eq-ok _ _ d)
  where
    all_used :
        (xs : List A) (rest : List ℕ) → exactly what (xs, rest) ≡ ok vals → length vals ≡ length xs
    all_used xs [] u = sym (ap length (ok_is u))
    all_used xs (x ∷ rest) u = absurd (ground arith)

pub IsDecoded-HasLength :
    (body offs : List ℕ) (n : ℕ) (c : VarintColumns) → IsDecoded body offs n c → HasLength n c
IsDecoded-HasLength body offs n c h = record {
  mono =
      decode_col-length encode_dod_u64 decode_dod_u64 body offs 0 n "mono column" c.mono
        dod_u64-Sized h.mono;
  wall =
      decode_col-length encode_dod_u64 decode_dod_u64 body offs 1 n "wall column" c.wall
        dod_u64-Sized h.wall;
  vts =
      decode_col-length encode_delta_u64 decode_delta_u64 body offs 2 n "venue_ts column" c.vts
        delta_u64-Sized h.vts;
  vseq =
      decode_col-length encode_delta_u64 decode_delta_u64 body offs 3 n "venue_seq column" c.vseq
        delta_u64-Sized h.vseq;
  price =
      decode_col-length encode_delta_i64 decode_delta_i64 body offs 4 n "price column" c.price
        delta_i64-Sized h.price;
  qty =
      decode_col-length encode_zz_i64 decode_zz_i64 body offs 5 n "qty column" c.qty zz_i64-Sized
        h.qty;
  aux =
      decode_col-length encode_delta_u64 decode_delta_u64 body offs 6 n "aux column" c.aux
        delta_u64-Sized h.aux;
  inst =
      decode_col-length encode_v_u32 decode_v_u32 body offs 7 n "instrument column" c.inst
        v_u32-Sized h.inst;
}

-- One column of a version 1 body, and then the rest.
next_column-length :
    {A B P : Type 0} (enc : List A → List ℕ → List ℕ)
    (dec : List ℕ → ℕ → List A → Option (List A × List ℕ)) (n : ℕ) (what : String) (b : List ℕ)
    (rest : List A × List ℕ → Result B BlockError) {y : B}
    → Sized enc dec
    → (next_column dec n what b >>= rest) ≡ ok y
    → ((x : List A × List ℕ) → length x.0 ≡ n → rest x ≡ ok y → P)
    → P
next_column-length enc dec n what b rest s e k =
    let (x, d, e1) = >>=-eq-ok (next_column dec n what b) rest e in
    k x (s.1 n b x.0 x.1 (ok_or-eq-ok _ _ d)) e1

columns_read :
    (n : ℕ) (c c' : VarintColumns) (b b' : List ℕ)
    → HasLength n c
    → (if◌then◌else◌ {A = Result (VarintColumns × List ℕ) BlockError}
        (length b == 3 * n)
        (ok (c, b))
        (err (corrupt "byte columns length")))
      ≡ ok (c', b')
    → HasLength n c' × (length b' ≡ 3 * n)
columns_read n c c' b b' h e =
    let (bytes, same) = required-eq-ok (length b == 3 * n) _ _ e in
    let same : (c, b) ≡ (c', b') = ok_is same in
    (subst (HasLength n) (ap (λ x. x.0) same) h, ap (λ x. length x.1) (sym same) ∙ ==→eq _ _ bytes)

-- The columns of a version 1 body, and the bytes behind them.
pub sequential-HasLength :
    (body : List ℕ) (n : ℕ) (c : VarintColumns) (b : List ℕ)
    → decode_varint_columns_sequential body n ≡ ok (c, b)
    → HasLength n c × (length b ≡ 3 * n)
unfolding decode_varint_columns_sequential
sequential-HasLength body n c b e =
    next_column-length encode_dod_u64 decode_dod_u64 n "mono column" body _ dod_u64-Sized e
      λ x0 l0 e0.
        next_column-length encode_dod_u64 decode_dod_u64 n "wall column" x0.1 _ dod_u64-Sized e0
          λ x1 l1 e1.
            next_column-length encode_delta_u64 decode_delta_u64 n "venue_ts column" x1.1 _
              delta_u64-Sized e1
              λ x2 l2 e2.
                next_column-length encode_delta_u64 decode_delta_u64 n "venue_seq column" x2.1 _
                  delta_u64-Sized e2
                  λ x3 l3 e3.
                    next_column-length encode_delta_i64 decode_delta_i64 n "price column" x3.1 _
                      delta_i64-Sized e3
                      λ x4 l4 e4.
                        next_column-length encode_zz_i64 decode_zz_i64 n "qty column" x4.1 _
                          zz_i64-Sized e4
                          λ x5 l5 e5.
                            next_column-length encode_delta_u64 decode_delta_u64 n "aux column" x5.1
                              _ delta_u64-Sized e5
                              λ x6 l6 e6.
                                next_column-length encode_v_u32 decode_v_u32 n "instrument column"
                                  x6.1 _ v_u32-Sized e6
                                  λ x7 l7 e7.
                                    columns_read n
                                      (record {
                                        mono = x0.0;
                                        wall = x1.0;
                                        vts = x2.0;
                                        vseq = x3.0;
                                        price = x4.0;
                                        qty = x5.0;
                                        aux = x6.0;
                                        inst = x7.0;
                                      })
                                      c x7.1 b
                                      (record {
                                        mono = l0;
                                        wall = l1;
                                        vts = l2;
                                        vseq = l3;
                                        price = l4;
                                        qty = l5;
                                        aux = l6;
                                        inst = l7;
                                      })
                                      e7
