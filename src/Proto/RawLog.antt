-- ===== src/Proto/RawLog.antt =====
-- crates/proto/src/rawlog.rs: segment files of raw records. A file is the list of its bytes; reads
-- and writes of an open file succeed. A u8, u32 or u64 field is a number. Nothing reads on after an
-- error, so a read that fails leaves no reader.
pub mod Read
pub mod Local
pub mod Header
pub mod Scan
use flashbook.Prelude.{
  ℕ, zero, suc, ◌+◌, ◌-◌, ◌*◌, ◌^◌, Bool, true, false, Option, none, some, List, [], ◌∷◌, ◌++◌,
  length, take, drop, ltb, leb, ◌==◌, ◌&&◌, ◌||◌, not, if◌then◌else◌, Result, ok, err, ◌>>=◌,
}
use flashbook.Prelude.Bytes.{same_bytes, le_bytes, from_le_bytes}
use flashbook.Prelude.Slices.{read_exact}
use flashbook.Proto.Hasher.{Hasher, hash}
use Prim.Native.String.{String}

-- `MAGIC`, "FBRAW001"
abbrev pub magic : List ℕ
magic = b'F' ∷ b'B' ∷ b'R' ∷ b'A' ∷ b'W' ∷ b'0' ∷ b'0' ∷ b'1' ∷ []

abbrev pub version : ℕ
version = 1

abbrev pub max_payload : ℕ
max_payload = 64 * 1024 * 1024

-- `RECORD_OVERHEAD`: kind, two clocks, and the checksum.
abbrev pub record_overhead : ℕ
record_overhead = 1 + 8 + 8 + 4

-- `RawLogError`, but for the errors of the file system.
pub data RawLogError : Type 0 where
  bad_header : String → RawLogError
  torn_tail : ℕ → String → RawLogError

-- `io::ErrorKind::InvalidInput`
pub data InvalidInput : Type 0 where
  invalid_input : InvalidInput

pub record RawRecord : Type 0 where
  pub rkind : ℕ
  pub recv_mono_ns : ℕ
  pub recv_wall_ns : ℕ
  pub payload : List ℕ

pub record SegmentHeader : Type 0 where
  pub version : ℕ
  pub venue : ℕ
  pub start_wall_ns : ℕ
  pub start_mono_ns : ℕ
  pub meta : List ℕ

-- `RawLogWriter`: what is written so far, and the two counters.
pub record RawLogWriter : Type 0 where
  pub w : List ℕ
  pub bytes : ℕ
  pub records : ℕ

-- `RawLogReader`: what is still to be read, the header, and the end of the last record.
pub record RawLogReader : Type 0 where
  pub r : List ℕ
  pub header : SegmentHeader
  pub offset : ℕ

-- `u32::try_from(meta.len())`
abbrev fits_u32 : ℕ → Bool
fits_u32 n = ltb n (2 ^ 32)

-- `RawLogWriter::create`
unfoldable pub create : ℕ → ℕ → ℕ → List ℕ → Result RawLogWriter InvalidInput
create venue start_wall_ns start_mono_ns meta =
    if fits_u32 (length meta)
    then ok (record {
      w =
          magic
          ++ (version ∷ venue ∷ le_bytes 2 0)
          ++ le_bytes 8 start_wall_ns
          ++ le_bytes 8 start_mono_ns
          ++ le_bytes 4 (length meta)
          ++ meta;
      bytes = 8 + 2 + 2 + 8 + 8 + 4 + length meta;
      records = 0;
    })
    else err invalid_input

module _ (hasher : Hasher) where
  -- The checksum as the writer takes it, piece by piece.
  unfoldable pub record_crc : RawRecord → ℕ
  record_crc rec =
      let h = hasher.update hasher.start (rec.rkind ∷ []) in
      let h = hasher.update h (le_bytes 8 rec.recv_mono_ns) in
      let h = hasher.update h (le_bytes 8 rec.recv_wall_ns) in
      hasher.finalize (hasher.update h rec.payload)

  -- `RawLogWriter::append`
  unfoldable pub append : RawRecord → RawLogWriter → Result RawLogWriter InvalidInput
  unfolding record_crc
  append rec w =
      let len = record_overhead + length rec.payload in
      if ltb max_payload (length rec.payload)
      then err invalid_input
      else if fits_u32 len
      then ok (record {
        w =
            w.w
            ++ le_bytes 4 len
            ++ (rec.rkind ∷ [])
            ++ le_bytes 8 rec.recv_mono_ns
            ++ le_bytes 8 rec.recv_wall_ns
            ++ rec.payload
            ++ le_bytes 4 (record_crc rec);
        bytes = w.bytes + (4 + len);
        records = w.records + 1;
      })
      else err invalid_input

-- `read_exact(..).map_err(..)?` and what follows it.
unfoldable or_bad_header :
    {A : Type 0}
    → Option A
    → String
    → (A → Result RawLogReader RawLogError)
    → Result RawLogReader RawLogError
or_bad_header none reason f = err (bad_header reason)
or_bad_header (some a) reason f = f a

-- `fixed[from..to]` as a number
abbrev le_slice : List ℕ → ℕ → ℕ → ℕ
le_slice b from n = from_le_bytes (take n (drop from b))

-- The reader, once the metadata is read.
abbrev opened : List ℕ → List ℕ × List ℕ → RawLogReader
opened fixed (meta, r) = record {
  r = r;
  header = record {
    version = le_slice fixed 0 1;
    venue = le_slice fixed 1 1;
    start_wall_ns = le_slice fixed 4 8;
    start_mono_ns = le_slice fixed 12 8;
    meta = meta;
  };
  offset = 8 + length fixed + le_slice fixed 20 4;
}

-- `from_reader` behind the fixed fields, and behind the magic.
with_fixed : List ℕ × List ℕ → Result RawLogReader RawLogError
with_fixed (fixed, b) =
    if le_slice fixed 0 1 == version
    then (if ltb max_payload (le_slice fixed 20 4)
        then err (bad_header "meta too large")
        else or_bad_header (read_exact (le_slice fixed 20 4) b) "short meta"
            (λ m. ok (opened fixed m)))
    else err (bad_header "unsupported version")

with_magic : List ℕ × List ℕ → Result RawLogReader RawLogError
with_magic (first, b) =
    if same_bytes first magic
    then or_bad_header (read_exact 24 b) "short header" with_fixed
    else err (bad_header "bad magic")

-- `RawLogReader::from_reader`
pub from_reader : List ℕ → Result RawLogReader RawLogError
from_reader b = or_bad_header (read_exact 8 b) "short magic" with_magic

-- `RECORD_OVERHEAD..=RECORD_OVERHEAD + MAX_PAYLOAD`
abbrev plausible : ℕ → Bool
plausible len = leb record_overhead len && leb len (record_overhead + max_payload)

module _ (hasher : Hasher) where
  -- The bytes of one record behind its length: its body and the checksum in its last four.
  read_body :
      ℕ → List ℕ → List ℕ → RawLogReader → Result (Option RawRecord × RawLogReader) RawLogError
  read_body len buf rest rd =
      let body = take (len - 4) buf in
      if from_le_bytes (drop (len - 4) buf) == hash hasher body
      then ok (
        some (record {
          rkind = le_slice body 0 1;
          recv_mono_ns = le_slice body 1 8;
          recv_wall_ns = le_slice body 9 8;
          payload = drop 17 body;
        }),
        record rd { r = rest; offset = rd.offset + (4 + len) },
      )
      else err (torn_tail rd.offset "crc mismatch")

  -- What `read_exact` gave for the rest of the record, if it was long enough.
  read_rest :
      ℕ
      → Option (List ℕ × List ℕ)
      → RawLogReader
      → Result (Option RawRecord × RawLogReader) RawLogError
  read_rest len none rd = err (torn_tail rd.offset "record truncated")
  read_rest len (some (buf, rest)) rd = read_body len buf rest rd

  -- Behind the length prefix.
  read_record : ℕ → List ℕ → RawLogReader → Result (Option RawRecord × RawLogReader) RawLogError
  read_record len b rd =
      if plausible len
      then read_rest len (read_exact len b) rd
      else err (torn_tail rd.offset "implausible record length")

  -- The length prefix, if there were four bytes.
  read_prefix :
      Option (List ℕ × List ℕ) → RawLogReader → Result (Option RawRecord × RawLogReader) RawLogError
  read_prefix (some (len4, b)) rd = read_record (from_le_bytes len4) b rd
  read_prefix none rd =
      if length rd.r == 0 then ok (none, rd) else err (torn_tail rd.offset "partial length prefix")

  -- `RawLogReader::read_next`; with no record at a clean end.
  pub read_next : RawLogReader → Result (Option RawRecord × RawLogReader) RawLogError
  read_next rd = read_prefix (read_exact 4 rd.r) rd

-- `ScanReport`
pub record ScanReport : Type 0 where
  pub records : ℕ
  pub payload_bytes : ℕ
  pub valid_bytes : ℕ
  pub torn : Option (ℕ × String)

module _ (hasher : Hasher) where
  -- One round of the loop of `scan`, from what `read_next` answered; `further` are the next rounds.
  scan_round :
      (RawLogReader → ℕ → ℕ → Option (Result ScanReport RawLogError))
      → Result (Option RawRecord × RawLogReader) RawLogError
      → RawLogReader
      → ℕ
      → ℕ
      → Option (Result ScanReport RawLogError)
  scan_round further (ok (some rec, rd')) rd records payload_bytes =
      further rd' (records + 1) (payload_bytes + length rec.payload)
  scan_round further (ok (none, rd')) rd records payload_bytes = some (
      ok (record {
        records = records;
        payload_bytes = payload_bytes;
        valid_bytes = rd'.offset;
        torn = none;
      }))
  scan_round further (err (torn_tail valid_bytes reason)) rd records payload_bytes = some (
      ok (record {
        records = records;
        payload_bytes = payload_bytes;
        valid_bytes = rd.offset;
        torn = some (valid_bytes, reason);
      }))
  scan_round further (err (bad_header reason)) rd records payload_bytes =
      some (err (bad_header reason))

  -- The loop of `scan`; none, if the rounds run out.
  scan_loop : ℕ → RawLogReader → ℕ → ℕ → Option (Result ScanReport RawLogError)
  scan_loop zero rd records payload_bytes = none
  scan_loop (suc rounds) rd records payload_bytes =
      scan_round (scan_loop rounds) (read_next hasher rd) rd records payload_bytes

  scan_from : Result RawLogReader RawLogError → Option (Result ScanReport RawLogError)
  scan_from (ok rd) = scan_loop (suc (length rd.r)) rd 0 0
  scan_from (err e) = some (err e)

  -- `scan`, with a round for each byte and one more.
  pub scan : List ℕ → Option (Result ScanReport RawLogError)
  scan file = scan_from (from_reader file)

-- `truncate_to_valid`
abbrev pub truncate_to_valid : ℕ → List ℕ → List ℕ
truncate_to_valid valid_bytes file = take valid_bytes file
