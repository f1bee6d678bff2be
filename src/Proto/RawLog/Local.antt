-- ===== src/Proto/RawLog/Local.antt =====
-- crates/proto/src/rawlog.rs: a successful read depends on the bytes that it takes, and no others.
use flashbook.Prelude.{
  ℕ, ◌+◌, ◌<◌, true, Option, none, some, List, [], ◌++◌, length, ok, ◌≡◌, refl, sym, ap, ◌∙◌, arith,
  Bool-cases, inl, inr, length-append,
}
use flashbook.Prelude.Bytes.{from_le_bytes}
use flashbook.Prelude.Slices.{read_exact, read_exact-append, read_exact_parts}
use flashbook.Proto.Hasher.{Hasher}
use flashbook.Proto.RawLog.{
  RawRecord, RawLogReader, read_body, read_rest, read_record, read_prefix, read_next, plausible,
}
use mathlib.Core.List.{append_assoc}

module _ (hasher : Hasher) where
  -- What a read took from the front, and that it does the same in front of anything else.
  pub record Took (rd rd' : RawLogReader) (rec : RawRecord) : Type 0 where
    pub chunk : List ℕ
    pub parts : rd.r ≡ chunk ++ rd'.r
    pub moved : rd'.offset ≡ rd.offset + length chunk
    pub nonempty : 0 < length chunk
    pub again :
        (t : List ℕ)
        → read_next hasher (record rd { r = chunk ++ t }) ≡ ok (some rec, record rd' { r = t })

  read_body-again :
      (len : ℕ) (buf rest t x : List ℕ) (rd rd' : RawLogReader) (rec : RawRecord)
      → read_body hasher len buf rest rd ≡ ok (some rec, rd')
      → (rd'.r ≡ rest)
        × (rd'.offset ≡ rd.offset + (4 + len))
        × (read_body hasher len buf t (record rd { r = x }) ≡ ok (some rec, record rd' { r = t }))
  unfolding read_body
  read_body-again len buf rest t x rd rd' rec e = ground arith

  took :
      (len4 buf rest : List ℕ) (rd rd' : RawLogReader) (rec : RawRecord)
      → rd.r ≡ len4 ++ (buf ++ rest)
      → length len4 ≡ 4
      → length buf ≡ from_le_bytes len4
      → plausible (from_le_bytes len4) ≡ true
      → read_body hasher (from_le_bytes len4) buf rest rd ≡ ok (some rec, rd')
      → Took rd rd' rec
  unfolding read_next read_prefix read_record read_rest
  took len4 buf rest rd rd' rec e four whole fits d =
      let len = from_le_bytes len4 in
      let (left, moved, _) = read_body-again len buf rest [] [] rd rd' rec d in
      record {
        chunk = len4 ++ buf;
        parts = e ∙ sym (append_assoc len4 buf rest) ∙ ap (λ l. len4 ++ buf ++ l) (sym left);
        moved = omega (arith, length-append len4 buf, moved, four, whole);
        nonempty = omega (arith, length-append len4 buf, four);
        again = λ t.
            let start = record rd { r = len4 ++ buf ++ t } in
            let prefix : read_exact 4 (len4 ++ buf ++ t) ≡ some (len4, buf ++ t) =
              ap (read_exact 4) (append_assoc len4 buf t)
              ∙ ap (λ k. read_exact k (len4 ++ (buf ++ t))) (sym four)
              ∙ read_exact-append len4 (buf ++ t) in
            let read : read_exact len (buf ++ t) ≡ some (buf, t) =
              ap (λ k. read_exact k (buf ++ t)) (sym whole) ∙ read_exact-append buf t in
            let recorded : read_record hasher len (buf ++ t) start
                ≡ read_body hasher len buf t start =
              rw fits (ap (λ o. read_rest hasher len o start) read) in
            ap (λ o. read_prefix hasher o start) prefix
            ∙ recorded
            ∙ (read_body-again len buf rest t (len4 ++ buf ++ t) rd rd' rec d).2;
      }

  Took-rest :
      (len4 b : List ℕ) (rd rd' : RawLogReader) (rec : RawRecord)
      → rd.r ≡ len4 ++ b
      → length len4 ≡ 4
      → plausible (from_le_bytes len4) ≡ true
      → (o : Option (List ℕ × List ℕ)) → read_exact (from_le_bytes len4) b ≡ o
      → read_rest hasher (from_le_bytes len4) o rd ≡ ok (some rec, rd')
      → Took rd rd' rec
  unfolding read_rest
  Took-rest len4 b rd rd' rec e four fits none d h = absurd (ground arith)
  Took-rest len4 b rd rd' rec e four fits (some (buf, rest)) d h =
      let (parts, whole) = read_exact_parts (from_le_bytes len4) b buf rest d in
      took len4 buf rest rd rd' rec (e ∙ ap (λ l. len4 ++ l) parts) four whole fits h

  Took-prefix :
      (rd rd' : RawLogReader) (rec : RawRecord) (o : Option (List ℕ × List ℕ))
      → read_exact 4 rd.r ≡ o
      → read_prefix hasher o rd ≡ ok (some rec, rd')
      → Took rd rd' rec
  unfolding read_prefix read_record
  Took-prefix rd rd' rec none d h = absurd (ground arith)
  Took-prefix rd rd' rec (some (len4, b)) d h =
      let (parts, four) = read_exact_parts 4 rd.r len4 b d in
      elim (Bool-cases (plausible (from_le_bytes len4))) [
        | inl fits ↦
            Took-rest len4 b rd rd' rec parts four fits (read_exact (from_le_bytes len4) b) refl
              (rw fits at h)
        | inr bad ↦ absurd (ground arith)
      ]

  pub read_next-Took :
      (rd rd' : RawLogReader) (rec : RawRecord)
      → read_next hasher rd ≡ ok (some rec, rd')
      → Took rd rd' rec
  unfolding read_next
  read_next-Took rd rd' rec e = Took-prefix rd rd' rec (read_exact 4 rd.r) refl e
