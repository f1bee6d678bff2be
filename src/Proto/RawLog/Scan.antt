-- ===== src/Proto/RawLog/Scan.antt =====
-- crates/proto/src/rawlog.rs: reading a whole segment, as `scan` and the replay do it.
pub mod Recovery
pub mod Written
use flashbook.Prelude.{
  ℕ, zero, suc, ◌+◌, ◌-◌, ◌≤◌, ◌<◌, Bool, Option, none, some, List, [], ◌∷◌, ◌++◌, length, take,
  Result, ok, err, ◌≡◌, refl, sym, ap, ◌∙◌, arith, length-append, All, ◌>>=◌,
}
use flashbook.Prelude.Slices.{read_exact, take-append}
use flashbook.Proto.Hasher.{Hasher, IsCrc32}
use flashbook.Proto.RawLog.{
  RawRecord, RawLogReader, RawLogError, torn_tail, bad_header, ScanReport, read_next, from_reader,
  scan_round, scan_loop, scan_from, scan, truncate_to_valid,
}
use flashbook.Proto.RawLog.Read.{
  IsWritable, record_bytes, length-record_bytes, read_next-record_bytes, read_next_torn,
}
use flashbook.Proto.RawLog.Local.{Took, read_next-Took}
use flashbook.Proto.RawLog.Header.{Opened, from_reader-Opened}
use Prim.Native.String.{String}
use mathlib.Core.List.{append_assoc, append-nil}

-- What the reads of one segment gave: the records, the reader after the last of them, and the
-- error that ended them, or none at a clean end.
pub record Readings : Type 0 where
  pub read : List RawRecord
  pub reader : RawLogReader
  pub failure : Option RawLogError

abbrev pub payload_total : List RawRecord → ℕ
payload_total [] = 0
payload_total (rec ∷ recs) = length rec.payload + payload_total recs

-- The report of `scan` on readings, with what was counted before them.
abbrev report : ℕ → ℕ → Readings → Option (ℕ × String) → ScanReport
report records payload_bytes x torn = record {
  records = records + length x.read;
  payload_bytes = payload_bytes + payload_total x.read;
  valid_bytes = x.reader.offset;
  torn = torn;
}

summary_of : ℕ → ℕ → Readings → Option RawLogError → Result ScanReport RawLogError
summary_of records payload_bytes x none = ok (report records payload_bytes x none)
summary_of records payload_bytes x (some (torn_tail v reason)) =
    ok (report records payload_bytes x (some (v, reason)))
summary_of records payload_bytes x (some (bad_header reason)) = err (bad_header reason)

abbrev consed : RawRecord → Readings → Option Readings
consed rec x = some (record x { read = rec ∷ x.read })

module _ (hasher : Hasher) where
  read_round :
      (RawLogReader → Option Readings)
      → Result (Option RawRecord × RawLogReader) RawLogError
      → RawLogReader
      → Option Readings
  read_round further (ok (some rec, rd')) rd = further rd' >>= consed rec
  read_round further (ok (none, rd')) rd = some (record { read = []; reader = rd'; failure = none })
  read_round further (err e) rd = some (record { read = []; reader = rd; failure = some e })

  -- `read_next` until it gives no record; none, if the rounds run out.
  pub read_all : ℕ → RawLogReader → Option Readings
  read_all zero rd = none
  read_all (suc rounds) rd = read_round (read_all rounds) (read_next hasher rd) rd

  counted :
      (rec : RawRecord) (x : Readings) (records payload_bytes : ℕ) (f : Option RawLogError)
      → summary_of (records + 1) (payload_bytes + length rec.payload) x f
        ≡ summary_of records payload_bytes (record x { read = rec ∷ x.read }) f
  unfolding summary_of
  counted rec x records payload_bytes none = ground arith
  counted rec x records payload_bytes (some (torn_tail v reason)) = ground arith
  counted rec x records payload_bytes (some (bad_header reason)) = refl

  counted_all :
      (rec : RawRecord) (o : Option Readings) (records payload_bytes : ℕ)
      → (o >>= λ x.
          some (summary_of (records + 1) (payload_bytes + length rec.payload) x x.failure))
        ≡ ((o >>= consed rec) >>= λ x. some (summary_of records payload_bytes x x.failure))
  counted_all rec none records payload_bytes = refl
  counted_all rec (some x) records payload_bytes =
      ap some (counted rec x records payload_bytes x.failure)

  scan_round-eq :
      (rounds : ℕ) (rd : RawLogReader) (records payload_bytes : ℕ)
      (o : Result (Option RawRecord × RawLogReader) RawLogError)
      → ((rd' : RawLogReader) (n p : ℕ)
          → scan_loop hasher rounds rd' n p
            ≡ (read_all rounds rd' >>= λ x. some (summary_of n p x x.failure)))
      → scan_round hasher (scan_loop hasher rounds) o rd records payload_bytes ≡ (
          read_round (read_all rounds) o rd >>= λ x.
          some (summary_of records payload_bytes x x.failure))
  unfolding scan_round read_round summary_of
  scan_round-eq rounds rd records payload_bytes (ok (some rec, rd')) ih =
      ih rd' (records + 1) (payload_bytes + length rec.payload)
      ∙ counted_all rec (read_all rounds rd') records payload_bytes
  scan_round-eq rounds rd records payload_bytes (ok (none, rd')) ih = ground arith
  scan_round-eq rounds rd records payload_bytes (err (torn_tail v reason)) ih = ground arith
  scan_round-eq rounds rd records payload_bytes (err (bad_header reason)) ih = refl

  -- `scan` counts what `read_all` collects.
  scan_loop-eq :
      (rounds : ℕ) (rd : RawLogReader) (records payload_bytes : ℕ)
      → scan_loop hasher rounds rd records payload_bytes
        ≡ (read_all rounds rd >>= λ x. some (summary_of records payload_bytes x x.failure))
  unfolding scan_loop read_all
  scan_loop-eq zero rd records payload_bytes = refl
  scan_loop-eq (suc rounds) rd records payload_bytes =
      scan_round-eq rounds rd records payload_bytes (read_next hasher rd)
        (λ rd' n p. scan_loop-eq rounds rd' n p)

  -- With a round for each byte and one more, the reads come to an end.
  read_round_ends :
      (rounds : ℕ) (rd : RawLogReader) (o : Result (Option RawRecord × RawLogReader) RawLogError)
      → read_next hasher rd ≡ o
      → ((rd' : RawLogReader)
          → length rd'.r < rounds
          → (x : Readings) × (read_all rounds rd' ≡ some x))
      → length rd.r < suc rounds
      → (x : Readings) × (read_round (read_all rounds) o rd ≡ some x)
  unfolding read_round
  read_round_ends rounds rd (ok (some rec, rd')) e ih h =
      let t = read_next-Took hasher rd rd' rec e in
      let less : length rd'.r < rounds =
        omega (arith, ap length t.parts, length-append t.chunk rd'.r, t.nonempty) in
      let (x, d) = ih rd' less in (record x { read = rec ∷ x.read }, ap (λ o. o >>= consed rec) d)
  read_round_ends rounds rd (ok (none, rd')) e ih h =
      (record { read = []; reader = rd'; failure = none }, refl)
  read_round_ends rounds rd (err f) e ih h =
      (record { read = []; reader = rd; failure = some f }, refl)

  pub read_all_ends :
      (rounds : ℕ) (rd : RawLogReader)
      → length rd.r < rounds
      → (x : Readings) × (read_all rounds rd ≡ some x)
  unfolding read_all
  read_all_ends zero rd h = absurd (omega arith)
  read_all_ends (suc rounds) rd h =
      read_round_ends rounds rd (read_next hasher rd) refl
        (λ rd' less. read_all_ends rounds rd' less) h

  scan_from_ends :
      (o : Result RawLogReader RawLogError)
      → (s : Result ScanReport RawLogError) × (scan_from hasher o ≡ some s)
  unfolding scan_from
  scan_from_ends (ok rd) =
      let (x, d) = read_all_ends (suc (length rd.r)) rd (omega arith) in
      (
        summary_of 0 0 x x.failure,
        scan_loop-eq (suc (length rd.r)) rd 0 0
            ∙ ap (λ o. o >>= λ x. some (summary_of 0 0 x x.failure)) d,
      )
  scan_from_ends (err e) = (err e, refl)

  -- `scan` comes to an end on every file, whatever its bytes are.
  pub scan_ends :
      (file : List ℕ) → (s : Result ScanReport RawLogError) × (scan hasher file ≡ some s)
  unfolding scan
  scan_ends file = scan_from_ends (from_reader file)
