-- ===== src/Replay/Source.antt =====
-- crates/replay/src/source.rs: the cursors over the segments of each venue, and their merge. A
-- segment file is its bytes; `unzip` is the zstd stream decoder, none if it cannot be made.
pub mod Order
use flashbook.Prelude.{
  ℕ, zero, suc, ◌+◌, Bool, true, false, Option, none, some, List, [], ◌∷◌, ltb, leb, ◌==◌, ◌&&◌,
  ◌||◌, if◌then◌else◌, Result, ok, err,
}
use flashbook.Prelude.Results.{◌>>=◌, ok_or}
use flashbook.Proto.Hasher.{Hasher}
use flashbook.Proto.RawLog.{
  RawLogReader, RawLogError, bad_header, torn_tail, RawRecord, from_reader, read_next,
}

-- `SegmentFile`, with the bytes of the file in place of its path.
pub record SegmentFile : Type 0 where
  pub bytes : List ℕ
  pub venue : ℕ
  pub start_wall_ns : ℕ
  pub compressed : Bool

-- `SourceError`, without the path.
pub data SourceError : Type 0 where
  io : SourceError
  segment : RawLogError → SourceError

pub record MergedRecord : Type 0 where
  pub venue : ℕ
  pub rkind : ℕ
  pub recv_mono_ns : ℕ
  pub recv_wall_ns : ℕ
  pub payload : List ℕ

-- A byte stream: what it gives, and whether it ends with an error, as a decoder that meets a corrupt
-- or incomplete frame does, or at the end of a file.
pub record Stream : Type 0 where
  pub bytes : List ℕ
  pub broken : Bool

-- `RawLogReader<Box<dyn Read>>`: the reader over the bytes of its stream, and how the stream ends.
pub record SegmentReader : Type 0 where
  pub log : RawLogReader
  pub broken : Bool

pub record VenueCursor : Type 0 where
  pub venue : ℕ
  pub segments : List SegmentFile
  pub reader : Option SegmentReader
  pub yielded : ℕ
  pub torn_tails : ℕ

-- What a step over a cursor gives: an answer, and the cursor behind it.
abbrev pub Step : Type 0
Step = Result (Option MergedRecord × VenueCursor) SourceError

abbrev pub merged : ℕ → RawRecord → MergedRecord
merged venue rec = record {
  venue = venue;
  rkind = rec.rkind;
  recv_mono_ns = rec.recv_mono_ns;
  recv_wall_ns = rec.recv_wall_ns;
  payload = rec.payload;
}

-- `map_err`
abbrev pub segment_error : {A : Type 0} → Result A RawLogError → Result A SourceError
segment_error (ok a) = ok a
segment_error (err e) = err (segment e)

-- What `read_next` of a segment gives.
abbrev pub ReadResult : Type 0
ReadResult = Result (Option RawRecord × SegmentReader) RawLogError

-- The answer of `read_next` over the bytes, for a stream that may be broken: an error in place of the
-- end is `ReadOutcome::Partial`. Within a record, an error and an end give the same answer.
unfoldable pub at_stream_end :
    SegmentReader → Result (Option RawRecord × RawLogReader) RawLogError → ReadResult
at_stream_end r (ok (some rec, log)) = ok (some rec, record r { log = log })
at_stream_end r (ok (none, log)) =
    if r.broken
    then err (torn_tail r.log.offset "partial length prefix")
    else ok (none, record r { log = log })
at_stream_end r (err e) = err e

-- What `read_next` gave; `next` goes on with the segments that are left.
unfoldable pub answer : ReadResult → (VenueCursor → Step) → VenueCursor → Step
answer (ok (some rec, r)) next c =
    ok (some (merged c.venue rec), record c { reader = some r; yielded = c.yielded + 1 })
answer (ok (none, r)) next c = next (record c { reader = none })
answer (err (torn_tail at reason)) next c =
    next (record c { reader = none; torn_tails = c.torn_tails + 1 })
answer (err (bad_header reason)) next c = err (segment (bad_header reason))

module _ (hasher : Hasher) (unzip : List ℕ → Option Stream) where
  -- The bytes of the file, decompressed or as they are.
  unfoldable pub segment_stream : SegmentFile → Result Stream SourceError
  segment_stream seg =
      if seg.compressed
      then ok_or (unzip seg.bytes) io
      else ok (record { bytes = seg.bytes; broken = false })

  -- `open_segment`
  unfoldable pub open_segment : SegmentFile → Result SegmentReader SourceError
  open_segment seg = segment_stream seg >>= λ stream.
      segment_error (from_reader stream.bytes) >>= λ log.
      ok (record { log = log; broken = stream.broken })

  -- `r.read_next()`
  unfoldable pub read_segment : SegmentReader → ReadResult
  read_segment r = at_stream_end r (read_next hasher r.log)

  -- The rounds of `next_record` without an open segment, by the segments that are left.
  unfoldable pub next_segment : List SegmentFile → VenueCursor → Step
  next_segment [] c = ok (none, record c { segments = [] })
  next_segment (seg ∷ segments) c = open_segment seg >>= λ r.
      answer (read_segment r) (next_segment segments) (record c { segments = segments })

  abbrev pub from_open : Option SegmentReader → VenueCursor → Step
  from_open none c = next_segment c.segments c
  from_open (some r) c = answer (read_segment r) (next_segment c.segments) c

  -- `VenueCursor::next_record`
  unfoldable pub next_record : VenueCursor → Step
  next_record c = from_open c.reader c

pub record MergedStream : Type 0 where
  pub cursors : List VenueCursor
  pub heads : List (Option MergedRecord)

-- `(rec.recv_mono_ns, rec.venue) < (cur.recv_mono_ns, cur.venue)`
abbrev pub key_lt : MergedRecord → MergedRecord → Bool
key_lt rec cur =
    ltb rec.recv_mono_ns cur.recv_mono_ns
    || (rec.recv_mono_ns == cur.recv_mono_ns && ltb rec.venue cur.venue)

-- Whether a head is `better` than the best one so far.
abbrev pub better : MergedRecord → Option (ℕ × MergedRecord) → Bool
better rec none = true
better rec (some (b, cur)) = key_lt rec cur

-- The loop over the heads from the `i`-th on: the best one, with its place.
unfoldable pub best_from :
    ℕ → List (Option MergedRecord) → Option (ℕ × MergedRecord) → Option (ℕ × MergedRecord)
best_from i [] best = best
best_from i (none ∷ heads) best = best_from (suc i) heads best
best_from i (some rec ∷ heads) best =
    best_from (suc i) heads (if better rec best then some (i, rec) else best)

-- `self.heads[i] = head`
unfoldable pub set_head :
    ℕ → Option MergedRecord → List (Option MergedRecord) → List (Option MergedRecord)
set_head i head [] = []
set_head zero head (h ∷ heads) = head ∷ heads
set_head (suc i) head (h ∷ heads) = h ∷ set_head i head heads

module _ (hasher : Hasher) (unzip : List ℕ → Option Stream) where
  -- `self.cursors[i].next_record()?`, and the cursors behind it.
  unfoldable pub pull :
      ℕ → List VenueCursor → Result (Option MergedRecord × List VenueCursor) SourceError
  pull i [] = ok (none, [])
  pull zero (c ∷ cursors) = next_record hasher unzip c >>= λ (h, c'). ok (h, c' ∷ cursors)
  pull (suc i) (c ∷ cursors) = pull i cursors >>= λ (h, cs). ok (h, c ∷ cs)

  unfoldable pub next_of :
      Option (ℕ × MergedRecord)
      → MergedStream
      → Result (Option MergedRecord × MergedStream) SourceError
  next_of none s = ok (none, s)
  next_of (some (i, out)) s = pull i s.cursors >>= λ (h, cursors).
      ok (some out, record { cursors = cursors; heads = set_head i h s.heads })

  -- `MergedStream::next`
  unfoldable pub next : MergedStream → Result (Option MergedRecord × MergedStream) SourceError
  next s = next_of (best_from 0 s.heads none) s
