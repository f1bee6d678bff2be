-- ===== src/Proto/RawLog/Scan/Written.antt =====
-- crates/proto/src/rawlog.rs: what a reader finds in a segment that was written, whole or cut off.
use flashbook.Prelude.{
  ℕ, zero, suc, ◌+◌, ◌-◌, ◌^◌, ◌<◌, true, false, Option, none, some, List, [], ◌∷◌, ◌++◌, length,
  take, ltb, Result, ok, err, ◌≡◌, refl, sym, ap, ap₂, ◌∙◌, arith, length-append, All, ◌>>=◌,
  take_append_ge,
}
use flashbook.Proto.Hasher.{Hasher, IsCrc32}
use flashbook.Proto.RawLog.{
  RawRecord, RawLogReader, RawLogWriter, RawLogError, InvalidInput, torn_tail, version, create,
  append, from_reader, scan_from, scan, record_overhead, max_payload,
}
use flashbook.Proto.RawLog.Read.{
  IsWritable, torn_reason, record_bytes, length-record_bytes, read_next-record_bytes,
  read_next_torn,
}
use flashbook.Proto.RawLog.Header.{IsHeader, header_bytes, create_bytes, from_reader-header_bytes}
use flashbook.Proto.RawLog.Scan.{
  Readings, payload_total, read_round, read_all, summary_of, consed, scan_loop-eq,
}
use flashbook.Proto.RawLog.Scan.Recovery.{read_all-nil}
use mathlib.Core.List.{append_assoc, append-nil}

-- `?` on the writer.
abbrev after_append :
    (RawLogWriter → Result RawLogWriter InvalidInput)
    → Result RawLogWriter InvalidInput
    → Result RawLogWriter InvalidInput
after_append next (ok w) = next w
after_append next (err e) = err e

module _ (hasher : Hasher) where
  -- `append` for each of a list of records, and the same from a new segment on.
  unfoldable pub append_all : List RawRecord → RawLogWriter → Result RawLogWriter InvalidInput
  append_all [] w = ok w
  append_all (rec ∷ recs) w = after_append (append_all recs) (append hasher rec w)

module _ (hasher : Hasher) (laws : IsCrc32 hasher) where
  abbrev log_bytes : List RawRecord → List ℕ
  log_bytes [] = []
  log_bytes (rec ∷ recs) = record_bytes hasher laws rec ++ log_bytes recs

  append-record_bytes :
      (rec : RawRecord) (w : RawLogWriter)
      → IsWritable rec
      → append hasher rec w
        ≡ ok (record {
          w = w.w ++ record_bytes hasher laws rec;
          bytes = w.bytes + length (record_bytes hasher laws rec);
          records = w.records + 1;
        })
  unfolding append
  append-record_bytes rec w h =
      let small : ltb max_payload (length rec.payload) ≡ false = ground (arith, h.short) in
      let fits : ltb (record_overhead + length rec.payload) (2 ^ 32) ≡ true =
        ground (arith, h.short) in
      rw (small, fits)
        (ap₂ (λ b n. ok (record { w = b; bytes = n; records = w.records + 1 })) (simp append_assoc)
          (omega (arith, length-record_bytes hasher laws rec)))

  append_all-log_bytes :
      (recs : List RawRecord) (w : RawLogWriter)
      → All IsWritable recs
      → append_all hasher recs w
        ≡ ok (record {
          w = w.w ++ log_bytes recs;
          bytes = w.bytes + length (log_bytes recs);
          records = w.records + length recs;
        })
  unfolding append_all
  append_all-log_bytes [] w h = rw (append-nil w.w) (ground arith)
  append_all-log_bytes (rec ∷ recs) w h =
      let w' : RawLogWriter = record {
        w = w.w ++ record_bytes hasher laws rec;
        bytes = w.bytes + length (record_bytes hasher laws rec);
        records = w.records + 1;
      } in
      ap (after_append (append_all hasher recs)) (append-record_bytes rec w h.0)
      ∙ append_all-log_bytes recs w' h.1
      ∙ ap
          (λ b. ok (record {
            w = b;
            bytes = w'.bytes + length (log_bytes recs);
            records = w'.records + length recs;
          }))
          (append_assoc w.w (record_bytes hasher laws rec) (log_bytes recs))
      ∙ ap₂
          (λ n m. ok (record {
            w = w.w ++ (record_bytes hasher laws rec ++ log_bytes recs);
            bytes = n;
            records = m;
          }))
          (omega (arith, length-append (record_bytes hasher laws rec) (log_bytes recs)))
          (omega arith)

  -- Reading over whole records, to whatever the reads behind them give.
  read_all-log_bytes :
      (recs : List RawRecord) (t : List ℕ) (rd : RawLogReader) (rounds : ℕ) (y : Readings)
      → All IsWritable recs
      → rd.r ≡ log_bytes recs ++ t
      → length rd.r < rounds
      → ((n : ℕ)
          → length t < n
          → read_all hasher n (record rd { r = t; offset = rd.offset + length (log_bytes recs) })
            ≡ some y)
      → read_all hasher rounds rd ≡ some (record y { read = recs ++ y.read })
  unfolding read_all read_round
  read_all-log_bytes [] t rd rounds y h e less last =
      let same : record rd { r = t; offset = rd.offset + 0 } ≡ rd =
        ap₂ (λ b k. record rd { r = b; offset = k }) (sym e) (omega arith) in
      ap (read_all hasher rounds) (sym same) ∙ last rounds (omega (arith, ap length e))
  read_all-log_bytes (rec ∷ recs) t rd zero y h e less last = absurd (omega arith)
  read_all-log_bytes (rec ∷ recs) t rd (suc rounds) y h e less last =
      let rest = log_bytes recs ++ t in
      let rd' = record rd {
        r = rest;
        offset = rd.offset + length (record_bytes hasher laws rec);
      } in
      let split : rd.r ≡ record_bytes hasher laws rec ++ rest =
        e ∙ append_assoc (record_bytes hasher laws rec) (log_bytes recs) t in
      let shorter : length rest < rounds = omega (
        arith,
        ap length split,
        length-append (record_bytes hasher laws rec) rest,
        length-record_bytes hasher laws rec,
      ) in
      let same : rd'.offset + length (log_bytes recs)
          ≡ rd.offset + length (record_bytes hasher laws rec ++ log_bytes recs) =
        omega (arith, length-append (record_bytes hasher laws rec) (log_bytes recs)) in
      ap (λ o. read_round hasher (read_all hasher rounds) o rd)
        (read_next-record_bytes hasher laws rec rest rd h.0 split)
      ∙ ap (λ o. o >>= consed rec)
          (read_all-log_bytes recs t rd' rounds y h.1 refl shorter
            (λ n m. ap (λ k. read_all hasher n (record rd { r = t; offset = k })) same ∙ last n m))

  -- What the reader of a written segment starts with.
  abbrev opened_at : ℕ → ℕ → ℕ → List ℕ → List ℕ → RawLogReader
  opened_at venue wall mono meta t = record {
    r = t;
    header = record {
      version = version;
      venue = venue;
      start_wall_ns = wall;
      start_mono_ns = mono;
      meta = meta;
    };
    offset = length (header_bytes venue wall mono meta);
  }

  -- A segment is created, and the records are appended.
  abbrev pub write_log : ℕ → ℕ → ℕ → List ℕ → List RawRecord → Result RawLogWriter InvalidInput
  write_log venue wall mono meta recs =
      after_append (append_all hasher recs) (create venue wall mono meta)

  write_log-bytes :
      (venue wall mono : ℕ) (meta : List ℕ) (recs : List RawRecord)
      → IsHeader venue wall mono meta
      → All IsWritable recs
      → write_log venue wall mono meta recs
        ≡ ok (record {
          w = header_bytes venue wall mono meta ++ log_bytes recs;
          bytes = length (header_bytes venue wall mono meta) + length (log_bytes recs);
          records = 0 + length recs;
        })
  write_log-bytes venue wall mono meta recs h a =
      ap (after_append (append_all hasher recs)) (create_bytes venue wall mono meta h)
      ∙ append_all-log_bytes recs _ a

  -- The reads of a written segment, with something behind its records.
  read_written :
      (venue wall mono : ℕ) (meta : List ℕ) (recs : List RawRecord) (t : List ℕ)
      (f : Option RawLogError)
      → All IsWritable recs
      → ((rd : RawLogReader) (n : ℕ)
          → rd.r ≡ t
          → rd.offset ≡ length (header_bytes venue wall mono meta) + length (log_bytes recs)
          → length t < n
          → read_all hasher n rd ≡ some (record { read = []; reader = rd; failure = f }))
      → read_all hasher
          (suc (length (log_bytes recs ++ t)))
          (opened_at venue wall mono meta (log_bytes recs ++ t))
        ≡ some (record {
          read = recs;
          reader = record (opened_at venue wall mono meta t) {
            offset = length (header_bytes venue wall mono meta) + length (log_bytes recs);
          };
          failure = f;
        })
  read_written venue wall mono meta recs t f a last =
      let rd = opened_at venue wall mono meta (log_bytes recs ++ t) in
      let rd' = record (opened_at venue wall mono meta t) {
        offset = length (header_bytes venue wall mono meta) + length (log_bytes recs);
      } in
      read_all-log_bytes recs t rd (suc (length (log_bytes recs ++ t)))
        (record { read = []; reader = rd'; failure = f }) a refl (omega arith)
        (λ n m. last rd' n refl refl m)
      ∙ ap (λ l. some (record { read = l; reader = rd'; failure = f })) (append-nil recs)

  -- A segment with a header and records that fit is written without an error, and reading it gives
  -- back its header and exactly its records, in order, to a clean end; the writer's counters are the
  -- size of the file and the number of records.
  pub read_all-write_log :
      (venue wall mono : ℕ) (meta : List ℕ) (recs : List RawRecord)
      → IsHeader venue wall mono meta
      → All IsWritable recs
      → (w : RawLogWriter) × (rd : RawLogReader) × (write_log venue wall mono meta recs ≡ ok w)
        × (from_reader w.w ≡ ok rd)
        × (rd.header ≡ record {
          version = version;
          venue = venue;
          start_wall_ns = wall;
          start_mono_ns = mono;
          meta = meta;
        })
        × (read_all hasher (suc (length rd.r)) rd
            ≡ some (record {
              read = recs;
              reader = record rd { r = []; offset = w.bytes };
              failure = none;
            }))
        × (w.bytes ≡ length w.w)
        × (w.records ≡ length recs)
  read_all-write_log venue wall mono meta recs h a =
      let rd = opened_at venue wall mono meta (log_bytes recs) in
      let end : log_bytes recs ++ [] ≡ log_bytes recs = append-nil (log_bytes recs) in
      (
        record {
          w = header_bytes venue wall mono meta ++ log_bytes recs;
          bytes = length (header_bytes venue wall mono meta) + length (log_bytes recs);
          records = 0 + length recs;
        },
        rd,
        write_log-bytes venue wall mono meta recs h a,
        from_reader-header_bytes venue wall mono meta h (log_bytes recs),
        refl,
        ap (λ l. read_all hasher (suc (length l)) (opened_at venue wall mono meta l)) (sym end)
            ∙ read_written venue wall mono meta recs [] none a
                (λ rd n e o m. read_all-nil hasher n rd e m),
        sym (length-append (header_bytes venue wall mono meta) (log_bytes recs)),
        omega arith,
      )

  -- A read of a record that is cut off ends the reads.
  read_all_torn :
      (rec : RawRecord) (k : ℕ) (rd : RawLogReader) (n : ℕ)
      → IsWritable rec
      → 0 < k
      → k < length (record_bytes hasher laws rec)
      → rd.r ≡ take k (record_bytes hasher laws rec)
      → 0 < n
      → read_all hasher n rd
        ≡ some (record {
          read = [];
          reader = rd;
          failure = some (torn_tail rd.offset (torn_reason k));
        })
  unfolding read_all read_round
  read_all_torn rec k rd zero h pos cut e more = absurd (omega arith)
  read_all_torn rec k rd (suc n) h pos cut e more =
      ap (λ o. read_round hasher (read_all hasher n) o rd)
        (read_next_torn hasher laws rec k rd h pos cut e)

  scan_written :
      (venue wall mono : ℕ) (meta : List ℕ) (recs : List RawRecord) (rec : RawRecord) (k : ℕ)
      → IsHeader venue wall mono meta
      → All IsWritable recs
      → IsWritable rec
      → 0 < k
      → k < length (record_bytes hasher laws rec)
      → (valid : ℕ) → valid ≡ length (header_bytes venue wall mono meta) + length (log_bytes recs)
      → scan hasher (
          header_bytes venue wall mono meta
          ++ (log_bytes recs ++ take k (record_bytes hasher laws rec)))
        ≡ some (
            ok (record {
              records = length recs;
              payload_bytes = payload_total recs;
              valid_bytes = valid;
              torn = some (valid, torn_reason k);
            }))
  unfolding scan scan_from summary_of
  scan_written venue wall mono meta recs rec k h a r pos cut valid size =
      let t = take k (record_bytes hasher laws rec) in
      let rd = opened_at venue wall mono meta (log_bytes recs ++ t) in
      let rounds = suc (length (log_bytes recs ++ t)) in
      ap (scan_from hasher) (from_reader-header_bytes venue wall mono meta h (log_bytes recs ++ t))
      ∙ scan_loop-eq hasher rounds rd 0 0
      ∙ ap (λ o. o >>= λ x. some (summary_of 0 0 x x.failure))
          (read_written venue wall mono meta recs t (some (torn_tail valid (torn_reason k))) a
            (λ rd' n e o m.
              read_all_torn rec k rd' n r pos cut e (omega arith)
              ∙ ap
                  (λ v. some (record {
                    read = [];
                    reader = rd';
                    failure = some (torn_tail v (torn_reason k));
                  }))
                  (o ∙ sym size)))
      ∙ ground (arith, size)

  -- A crash in the middle of an append, at any byte of the new record, loses that record and no
  -- other: `scan` counts the records before it and their payload, and reports the size of the file
  -- before the append as the point to truncate at.
  pub scan-torn :
      (venue wall mono : ℕ) (meta : List ℕ) (recs : List RawRecord) (rec : RawRecord)
      (w w' : RawLogWriter) (j : ℕ)
      → IsHeader venue wall mono meta
      → All IsWritable recs
      → IsWritable rec
      → write_log venue wall mono meta recs ≡ ok w
      → append hasher rec w ≡ ok w'
      → w.bytes < j
      → j < w'.bytes
      → scan hasher (take j w'.w)
        ≡ some (
            ok (record {
              records = length recs;
              payload_bytes = payload_total recs;
              valid_bytes = w.bytes;
              torn = some (w.bytes, torn_reason (j - w.bytes));
            }))
  scan-torn venue wall mono meta recs rec w w' j h a r written appended after before =
      let front = header_bytes venue wall mono meta ++ log_bytes recs in
      let bytes = record_bytes hasher laws rec in
      let k = j - w.bytes in
      let wrote : ok w ≡ ok _ = sym written ∙ write_log-bytes venue wall mono meta recs h a in
      let more : ok w' ≡ ok _ = sym appended ∙ append-record_bytes rec w r in
      let w_file : w.w ≡ front = cc in
      let w_size : w.bytes ≡ length (header_bytes venue wall mono meta) + length (log_bytes recs) =
        cc in
      let file : w'.w ≡ w.w ++ bytes = cc in
      let size : w'.bytes ≡ w.bytes + length bytes = cc in
      let whole : length front ≡ w.bytes =
        length-append (header_bytes venue wall mono meta) (log_bytes recs) ∙ sym w_size in
      let cut : take j w'.w
          ≡ header_bytes venue wall mono meta ++ (log_bytes recs ++ take k bytes) =
        ap (take j) (file ∙ ap (λ l. l ++ bytes) w_file)
        ∙ take_append_ge j front bytes (omega (arith, whole))
        ∙ ap (λ n. front ++ take (j - n) bytes) whole
        ∙ append_assoc (header_bytes venue wall mono meta) (log_bytes recs) (take k bytes) in
      ap (scan hasher) cut
      ∙ scan_written venue wall mono meta recs rec k h a r (omega arith) (omega (arith, size))
          w.bytes w_size
