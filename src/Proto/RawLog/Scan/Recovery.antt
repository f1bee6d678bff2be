-- ===== src/Proto/RawLog/Scan/Recovery.antt =====
-- crates/proto/src/rawlog.rs: cutting a segment off where its valid records end.
use flashbook.Prelude.{
  ℕ, zero, suc, ◌+◌, ◌≤◌, ◌<◌, Option, none, some, List, [], ◌∷◌, ◌++◌, length, take, Result, ok,
  err, ◌≡◌, refl, sym, ap, ◌∙◌, arith, length-append, ◌>>=◌, Bool-cases, inl, inr, >>=-eq-some,
}
use flashbook.Prelude.Bytes.{from_le_bytes}
use flashbook.Prelude.Slices.{read_exact, take-append}
use flashbook.Proto.Hasher.{Hasher}
use flashbook.Proto.RawLog.{
  RawRecord, RawLogReader, RawLogError, torn_tail, bad_header, ScanReport, read_body, read_rest,
  read_record, read_prefix, read_next, from_reader, scan_from, scan, truncate_to_valid, plausible,
}
use flashbook.Proto.RawLog.Local.{Took, read_next-Took}
use flashbook.Proto.RawLog.Header.{Opened, from_reader-Opened}
use flashbook.Proto.RawLog.Scan.{Readings, read_round, read_all, summary_of, consed, scan_loop-eq}
use mathlib.Core.List.{append_assoc}
use mathlib.Core.Path.{subst}

module _ (hasher : Hasher) where
  -- At the end of the bytes, a read finds a clean end.
  pub read_next-nil : (rd : RawLogReader) → rd.r ≡ [] → read_next hasher rd ≡ ok (none, rd)
  unfolding read_next read_prefix read_exact
  read_next-nil rd e =
      let short : read_exact 4 rd.r ≡ none = ap (read_exact 4) e in
      let empty : length rd.r ≡ 0 = ap length e in
      ap (λ o. read_prefix hasher o rd) short ∙ ground arith

  read_rest-none :
      (len : ℕ) (o : Option (List ℕ × List ℕ)) (rd rd' : RawLogReader)
      → read_rest hasher len o rd ≡ ok (none, rd')
      → rd' ≡ rd
  unfolding read_rest read_body
  read_rest-none len none rd rd' e = absurd (ground arith)
  read_rest-none len (some (buf, rest)) rd rd' e = absurd (ground arith)

  read_prefix-none :
      (o : Option (List ℕ × List ℕ)) (rd rd' : RawLogReader)
      → read_prefix hasher o rd ≡ ok (none, rd')
      → rd' ≡ rd
  unfolding read_prefix read_record
  read_prefix-none none rd rd' e = ground arith
  read_prefix-none (some (len4, b)) rd rd' e = elim (Bool-cases (plausible (from_le_bytes len4))) [
    | inl fits ↦
        read_rest-none (from_le_bytes len4) (read_exact (from_le_bytes len4) b) rd rd'
          (rw fits at e)
    | inr bad ↦ absurd (ground arith)
  ]

  -- What the reads of a segment consumed, and that they consume it alike when it stands alone.
  record Consumed (rd : RawLogReader) (x : Readings) : Type 0 where
    consumed : List ℕ
    parts : rd.r ≡ consumed ++ x.reader.r
    moved : x.reader.offset ≡ rd.offset + length consumed
    alone :
        (rounds : ℕ)
        → length consumed < rounds
        → read_all hasher rounds (record rd { r = consumed })
          ≡ some (record { read = x.read; reader = record x.reader { r = [] }; failure = none })

  pub read_all-nil :
      (rounds : ℕ) (rd : RawLogReader)
      → rd.r ≡ []
      → 0 < rounds
      → read_all hasher rounds rd ≡ some (record { read = []; reader = rd; failure = none })
  unfolding read_all read_round
  read_all-nil zero rd e h = absurd (omega arith)
  read_all-nil (suc rounds) rd e h =
      ap (λ o. read_round hasher (read_all hasher rounds) o rd) (read_next-nil rd e)

  nothing-Consumed :
      (rd : RawLogReader) (f : Option RawLogError)
      → Consumed rd (record { read = []; reader = rd; failure = f })
  nothing-Consumed rd f = record {
    consumed = [];
    parts = refl;
    moved = omega arith;
    alone = λ rounds h. read_all-nil rounds (record rd { r = [] }) refl h;
  }

  one-Consumed :
      (rd rd' : RawLogReader) (rec : RawRecord) (x : Readings)
      → Took hasher rd rd' rec
      → Consumed rd' x
      → Consumed rd (record x { read = rec ∷ x.read })
  unfolding read_all read_round
  one-Consumed rd rd' rec x t c = record {
    consumed = t.chunk ++ c.consumed;
    parts =
        t.parts ∙ ap (λ l. t.chunk ++ l) c.parts ∙ sym (append_assoc t.chunk c.consumed x.reader.r);
    moved = omega (arith, c.moved, t.moved, length-append t.chunk c.consumed);
    alone = λ rounds h. again rounds h;
  }
    where
      start : RawLogReader
      start = record rd { r = t.chunk ++ c.consumed }

      again :
          (rounds : ℕ)
          → length (t.chunk ++ c.consumed) < rounds
          → read_all hasher rounds start
            ≡ some (record {
              read = rec ∷ x.read;
              reader = record x.reader { r = [] };
              failure = none;
            })
      again zero h = absurd (omega arith)
      again (suc rounds) h =
          ap (λ o. read_round hasher (read_all hasher rounds) o start) (t.again c.consumed)
          ∙ ap (λ o. o >>= consed rec)
              (c.alone rounds (omega (arith, length-append t.chunk c.consumed, t.nonempty)))

  read_round-Consumed :
      (rounds : ℕ) (rd : RawLogReader) (o : Result (Option RawRecord × RawLogReader) RawLogError)
      (x : Readings)
      → read_next hasher rd ≡ o
      → ((rd' : RawLogReader) (y : Readings) → read_all hasher rounds rd' ≡ some y → Consumed rd' y)
      → read_round hasher (read_all hasher rounds) o rd ≡ some x
      → Consumed rd x
  unfolding read_round read_next
  read_round-Consumed rounds rd (ok (some rec, rd')) x e ih d =
      let (y, same, shown) = >>=-eq-some (read_all hasher rounds rd') (consed rec) d in
      let whole : record y { read = rec ∷ y.read } ≡ x = cc in
      subst (Consumed rd) whole
        (one-Consumed rd rd' rec y (read_next-Took hasher rd rd' rec e) (ih rd' y same))
  read_round-Consumed rounds rd (ok (none, rd')) x e ih d =
      let same : rd' ≡ rd = read_prefix-none (read_exact 4 rd.r) rd rd' e in
      let whole : record { read = []; reader = rd; failure = none } ≡ x =
        ap (λ r. record { read = []; reader = r; failure = none }) (sym same) ∙ cc in
      subst (Consumed rd) whole (nothing-Consumed rd none)
  read_round-Consumed rounds rd (err f) x e ih d =
      let whole : record { read = []; reader = rd; failure = some f } ≡ x = cc in
      subst (Consumed rd) whole (nothing-Consumed rd (some f))

  read_all-Consumed :
      (rounds : ℕ) (rd : RawLogReader) (x : Readings)
      → read_all hasher rounds rd ≡ some x
      → Consumed rd x
  unfolding read_all
  read_all-Consumed zero rd x e = absurd (ground arith)
  read_all-Consumed (suc rounds) rd x e =
      read_round-Consumed rounds rd (read_next hasher rd) x refl
        (λ rd' y d. read_all-Consumed rounds rd' y d) e

  -- A report of `scan` came from readings.
  summary_of-ok :
      (x : Readings) (f : Option RawLogError) (rep : ScanReport)
      → summary_of 0 0 x f ≡ ok rep
      → (rep.valid_bytes ≡ x.reader.offset)
        × (summary_of 0 0 x none ≡ ok (record rep { torn = none }))
  unfolding summary_of
  summary_of-ok x none rep e = ground arith
  summary_of-ok x (some (torn_tail v reason)) rep e = ground arith
  summary_of-ok x (some (bad_header reason)) rep e = absurd (ground arith)

  scan_parts :
      (file : List ℕ) (rd : RawLogReader) (x : Readings) (rep : ScanReport)
      → Opened file rd
      → Consumed rd x
      → summary_of 0 0 x x.failure ≡ ok rep
      → (rep.valid_bytes ≤ length file)
        × (scan hasher (truncate_to_valid rep.valid_bytes file)
            ≡ some (ok (record rep { torn = none })))
  unfolding scan scan_from summary_of
  scan_parts file rd x rep opened c e =
      let (valid, clean) = summary_of-ok x x.failure rep e in
      let whole : file ≡ opened.front ++ c.consumed ++ x.reader.r =
        opened.parts
        ∙ ap (λ l. opened.front ++ l) c.parts
        ∙ sym (append_assoc opened.front c.consumed x.reader.r) in
      let size : rep.valid_bytes ≡ length (opened.front ++ c.consumed) =
        omega (arith, valid, c.moved, opened.offset, length-append opened.front c.consumed) in
      let cut : truncate_to_valid rep.valid_bytes file ≡ opened.front ++ c.consumed =
        ap (take rep.valid_bytes) whole
        ∙ take-append (opened.front ++ c.consumed) x.reader.r rep.valid_bytes size in
      let start = record rd { r = c.consumed } in
      (
        omega (arith, ap length whole, length-append (opened.front ++ c.consumed) x.reader.r, size),
        ap (scan hasher) cut
            ∙ ap (scan_from hasher) (opened.again c.consumed)
            ∙ scan_loop-eq hasher (suc (length c.consumed)) start 0 0
            ∙ ap (λ o. o >>= λ y. some (summary_of 0 0 y y.failure))
                (c.alone (suc (length c.consumed)) (omega arith))
            ∙ ap some clean,
      )

  scan_from-ok :
      (file : List ℕ) (o : Result RawLogReader RawLogError) (rep : ScanReport)
      → from_reader file ≡ o
      → scan_from hasher o ≡ some (ok rep)
      → (rep.valid_bytes ≤ length file)
        × (scan hasher (truncate_to_valid rep.valid_bytes file)
            ≡ some (ok (record rep { torn = none })))
  unfolding scan_from
  scan_from-ok file (err f) rep e d = absurd (ground arith)
  scan_from-ok file (ok rd) rep e d =
      let rounds = suc (length rd.r) in
      let (x, read, shown) =
        >>=-eq-some (read_all hasher rounds rd) (λ y. some (summary_of 0 0 y y.failure))
          (sym (scan_loop-eq hasher rounds rd 0 0) ∙ d) in
      scan_parts file rd x rep (from_reader-Opened file rd e) (read_all-Consumed rounds rd x read)
        (cc)

  -- Whatever the bytes of a file are: where `scan` gives a report, its valid bytes are a part of
  -- the file, and the file truncated to them scans to the same report, without a torn tail.
  pub scan-truncate_to_valid :
      (file : List ℕ) (rep : ScanReport)
      → scan hasher file ≡ some (ok rep)
      → (rep.valid_bytes ≤ length file)
        × (scan hasher (truncate_to_valid rep.valid_bytes file)
            ≡ some (ok (record rep { torn = none })))
  unfolding scan
  scan-truncate_to_valid file rep e = scan_from-ok file (from_reader file) rep refl e
