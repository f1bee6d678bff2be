-- ===== src/Store/Block/Header/Table.antt =====
-- crates/store/src/block.rs: what a header that parses says of the columns, and the body it has.
use flashbook.Prelude.{
  ℕ, Bool, true, false, Option, none, some, List, [], ◌∷◌, length, Result, ok, ◌≡◌, refl, sym, ap,
  ◌∙◌, arith, ◌==◌, ==→eq, if◌then◌else◌, ltb, take, drop, ◌&&◌, ◌||◌, not,
}
use flashbook.Prelude.Results.{>>=-eq-ok, checked-eq-ok, required-eq-ok, if_false-eq, ok_is}
use flashbook.Proto.Hasher.{Hasher, hash}
use flashbook.Store.Block.{
  block_magic, block_version, block_version_v1, max_block_events, max_body_len, header_len_v1,
  BlockHeader, Zstd, total_len, header_len,
}
use mathlib.Core.Path.{subst}
use flashbook.Store.Block.Header.{
  le_slice, sum, col_lens_from, read_col_lens, all_equal, header_of, parse_header, raw_body,
  read_body,
}

-- The table of a version 2 header: eight lengths, and one for each byte column, the number of
-- events; together they are the length of the body.
pub record IsTabled (h : BlockHeader) : Type 0 where
  pub mono : ℕ
  pub wall : ℕ
  pub vts : ℕ
  pub vseq : ℕ
  pub price : ℕ
  pub qty : ℕ
  pub aux : ℕ
  pub inst : ℕ
  pub shape :
      h.col_lens
      ≡ mono ∷ wall ∷ vts ∷ vseq ∷ price ∷ qty ∷ aux ∷ inst ∷ h.n_events ∷ h.n_events ∷ h.n_events
        ∷ []
  pub total : sum h.col_lens ≡ h.raw_len

three_equal : (n a b c : ℕ) → all_equal n (a ∷ b ∷ c ∷ []) ≡ true → (a ≡ n) × (b ≡ n) × (c ≡ n)
unfolding all_equal
three_equal n a b c e = ground arith

if_some-eq :
    {A E : Type 0} (b : Bool) (r : Result (Option A) E) {a : A}
    → (if b then ok none else r) ≡ ok (some a)
    → (b ≡ false) × (r ≡ ok (some a))
if_some-eq true r h = absurd (ground arith)
if_some-eq false r h = (refl, h)

some_is : {A : Type 0} {a b : A} → some a ≡ some b → a ≡ b
some_is e = ground (arith, e)

-- The three lengths at the end.
with_events :
    (n a b c : ℕ) (front : List ℕ → List ℕ)
    → a ≡ n
    → b ≡ n
    → c ≡ n
    → front (a ∷ b ∷ c ∷ []) ≡ front (n ∷ n ∷ n ∷ [])
with_events n a b c front e f g = rw (e, f, g) refl

read_col_lens-IsTabled :
    (b lens : List ℕ) (h : BlockHeader)
    → read_col_lens h.version h.n_events h.raw_len b ≡ ok lens
    → (h.version == block_version_v1) ≡ false
    → h.col_lens ≡ lens
    → IsTabled h
unfolding read_col_lens col_lens_from
read_col_lens-IsTabled b lens h e v2 same =
    let (_, e1) = checked-eq-ok _ _ _ (if_false-eq (h.version == block_version_v1) _ _ e v2) in
    let (total, e2) = required-eq-ok _ _ _ e1 in
    let (equal, e3) = required-eq-ok _ _ _ e2 in
    let (eight, nine, ten) = three_equal h.n_events _ _ _ equal in
    record {
      mono = le_slice b 56 4;
      wall = le_slice b 60 4;
      vts = le_slice b 64 4;
      vseq = le_slice b 68 4;
      price = le_slice b 72 4;
      qty = le_slice b 76 4;
      aux = le_slice b 80 4;
      inst = le_slice b 84 4;
      shape =
          same
          ∙ sym (ok_is e3)
          ∙ with_events h.n_events _ _ _
              (λ l.
                le_slice b 56 4
                ∷ le_slice b 60 4
                ∷ le_slice b 64 4
                ∷ le_slice b 68 4
                ∷ le_slice b 72 4
                ∷ le_slice b 76 4
                ∷ le_slice b 80 4
                ∷ le_slice b 84 4
                ∷ l)
              eight nine ten;
      total = ap sum (same ∙ sym (ok_is e3)) ∙ ==→eq _ _ total;
    }

header_of-IsTabled :
    (b lens : List ℕ) (h : BlockHeader)
    → read_col_lens (le_slice b 4 1) (le_slice b 8 4) (le_slice b 16 4) b ≡ ok lens
    → header_of b lens ≡ h
    → (h.version == block_version_v1) ≡ false
    → IsTabled h
unfolding header_of
header_of-IsTabled b lens h read same v2 = subst IsTabled same (
    read_col_lens-IsTabled b lens (header_of b lens) read
      (ap (λ (g : BlockHeader). g.version == block_version_v1) same ∙ v2) refl)

-- A block of version 2 has a table that fits.
pub parse_header-IsTabled :
    (b : List ℕ) (h : BlockHeader)
    → parse_header b ≡ ok (some h)
    → (h.version == block_version_v1) ≡ false
    → IsTabled h
unfolding parse_header header_of
parse_header-IsTabled b h e v2 =
    let (_, e1) = if_some-eq (length b == 0) _ e in
    let (_, e2) = checked-eq-ok (ltb (length b) header_len_v1) _ _ e1 in
    let (_, e3) = checked-eq-ok (not (le_slice b 0 4 == block_magic)) _ _ e2 in
    let (_, e4) =
      checked-eq-ok
        (not (le_slice b 4 1 == block_version_v1) && not (le_slice b 4 1 == block_version)) _ _
        e3 in
    let (_, e5) =
      checked-eq-ok (le_slice b 8 4 == 0 || ltb max_block_events (le_slice b 8 4)) _ _ e4 in
    let (_, e6) =
      checked-eq-ok (ltb max_body_len (le_slice b 12 4) || ltb max_body_len (le_slice b 16 4)) _ _
        e5 in
    let (lens, read, e7) =
      >>=-eq-ok (read_col_lens (le_slice b 4 1) (le_slice b 8 4) (le_slice b 16 4) b) _ e6 in
    header_of-IsTabled b lens h read (some_is (ok_is e7)) v2

module _ (hasher : Hasher) (codec : Zstd) where
  -- A body that is read has the length that the header gives.
  pub read_body-length :
      (b : List ℕ) (h : BlockHeader) (body : List ℕ) (size : ℕ)
      → read_body hasher codec b h ≡ ok (body, size)
      → length body ≡ h.raw_len
  unfolding read_body
  read_body-length b h body size e =
      let stored = take h.body_len (drop (header_len h.version) b) in
      let (_, e1) = checked-eq-ok (ltb (length b) (total_len h)) _ _ e in
      let (_, e2) = required-eq-ok (hash hasher stored == h.crc) _ _ e1 in
      let (raw, _, e3) = >>=-eq-ok (raw_body hasher codec stored h) _ e2 in
      let (same, e4) = required-eq-ok (length raw == h.raw_len) _ _ e3 in
      ap length (sym (ap (λ x. x.0) (ok_is e4))) ∙ ==→eq _ _ same
