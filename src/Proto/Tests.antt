-- ===== src/Proto/Tests.antt =====
-- The registry, the scaling, the checksum and the raw log at concrete inputs, and their theorems.
use flashbook.Prelude.{
  suc, ◌≡◌, ◌≤◌, refl, some, none, List, [], ◌∷◌, ◌++◌, Result, ok, length, take, true, ◌*◌, ◌^◌,
  arith,
}
use flashbook.Proto.Event.{coinbase}
use flashbook.Proto.Instrument.{
  InstrumentMeta, Registry, default_registry, insert, get, id_of, find_symbol,
}
use flashbook.Proto.Fixed.{scale_mantissa}
use flashbook.Proto.Fixed.Scale.{scale_mantissa_exact}
use flashbook.Proto.Hasher.Counting.{counting, counting-IsStreaming, counting-IsCrc32}
use flashbook.Prelude.Bytes.{le_bytes}
use flashbook.Proto.RawLog.{
  RawRecord, RawLogReader, RawLogWriter, RawLogError, ScanReport, create, append, record_crc, scan,
  truncate_to_valid, from_reader,
}
use flashbook.Proto.RawLog.Read.{IsWritable, record_bytes}
use flashbook.Proto.RawLog.Header.{IsHeader, header_bytes}
use flashbook.Proto.RawLog.Scan.{read_all, scan_ends}
use flashbook.Proto.RawLog.Scan.Recovery.{scan-truncate_to_valid}
use flashbook.Proto.RawLog.Scan.Written.{append_all, write_log, read_all-write_log, scan-torn}
use flashbook.Proto.KrakenCrc.{kraken_book_crc32, scaled_digits}
use flashbook.Proto.KrakenCrc.Stream.{kraken_book_crc32-digits}
use flashbook.Prelude.Int.{ℤ, pos, negsuc}
use flashbook.Proto.Instrument.Lookup.{insert_lookups, IsIndexed}

abbrev bitcoin : InstrumentMeta
bitcoin = record { id = 1; venue = coinbase; venue_symbol = "BTC-USD"; canonical = "BTC-USD" }

abbrev with_bitcoin : Registry
with_bitcoin = record {
  metas = bitcoin ∷ [];
  by_id = (1, 0) ∷ [];
  by_venue_symbol = ((coinbase, "BTC-USD"), 1) ∷ [];
}

bitcoin_inserted : insert bitcoin default_registry ≡ ok with_bitcoin
unfolding insert
bitcoin_inserted = refl

insert_lookups_example :
    (get 1 with_bitcoin ≡ some bitcoin)
    × (id_of coinbase "BTC-USD" with_bitcoin ≡ some 1)
    × IsIndexed with_bitcoin
unfolding find_symbol
insert_lookups_example =
    insert_lookups bitcoin default_registry with_bitcoin 1 coinbase "BTC-USD" tt bitcoin_inserted

-- 5 and 0.25 at two decimals: the digits 500 and 25.
abbrev one_level : List (ℤ × ℤ)
one_level = (pos 500_000_000, pos 25_000_000) ∷ []

kraken_book_crc32-digits_example : kraken_book_crc32 counting one_level one_level 2 2 ≡ 10
unfolding scaled_digits
kraken_book_crc32-digits_example =
    kraken_book_crc32-digits counting counting-IsStreaming one_level one_level 2 2

minus_five : scale_mantissa 500 (negsuc 1) true ≡ ok (negsuc 4)
unfolding scale_mantissa
minus_five = refl

scale_mantissa_exact_example : 5 * 10 ^ 2 ≡ 500
scale_mantissa_exact_example = scale_mantissa_exact 500 (negsuc 1) true (negsuc 4) minus_five

-- A segment of one venue with no metadata and no record yet, and a record of three bytes.
abbrev empty_log : RawLogWriter
empty_log = record { w = header_bytes 1 5 6 []; bytes = 32; records = 0 }

abbrev note : RawRecord
note = record { rkind = 4; recv_mono_ns = 7; recv_wall_ns = 8; payload = 1 ∷ 2 ∷ 3 ∷ [] }

abbrev one_note : RawLogWriter
one_note = record {
  w = header_bytes 1 5 6 [] ++ record_bytes counting counting-IsCrc32 note;
  bytes = 60;
  records = 1;
}

note-IsWritable : IsWritable note
note-IsWritable = record {
  kind_byte = omega arith;
  mono_u64 = omega arith;
  wall_u64 = omega arith;
  short = omega arith;
}

log-IsHeader : IsHeader 1 5 6 []
log-IsHeader = record {
  venue_byte = omega arith;
  wall_u64 = omega arith;
  mono_u64 = omega arith;
  short = omega arith;
}

empty_log_written : write_log counting counting-IsCrc32 1 5 6 [] [] ≡ ok empty_log
unfolding create append_all le_bytes
empty_log_written = refl

note_appended : append counting note empty_log ≡ ok one_note
unfolding append le_bytes record_crc
note_appended = refl

abbrev torn_report : ScanReport
torn_report = record {
  records = 0;
  payload_bytes = 0;
  valid_bytes = 32;
  torn = some (32, "record truncated");
}

scan-torn_example : scan counting (take 40 one_note.w) ≡ some (ok torn_report)
scan-torn_example =
    scan-torn counting counting-IsCrc32 1 5 6 [] [] note empty_log one_note 40 log-IsHeader tt
      note-IsWritable empty_log_written note_appended (omega arith) (omega arith)

torn_scan : scan counting (take 40 one_note.w) ≡ some (ok torn_report)
torn_scan =
    scan-torn counting counting-IsCrc32 1 5 6 [] [] note empty_log one_note 40 log-IsHeader tt
      note-IsWritable empty_log_written note_appended (omega arith) (omega arith)

scan-truncate_to_valid_example :
    (32 ≤ length (take 40 one_note.w))
    × (scan counting (truncate_to_valid 32 (take 40 one_note.w))
        ≡ some (ok (record torn_report { torn = none })))
scan-truncate_to_valid_example =
    scan-truncate_to_valid counting (take 40 one_note.w) torn_report torn_scan

scan_ends_example :
    (s : Result ScanReport RawLogError) × (scan counting (b'F' ∷ b'B' ∷ []) ≡ some s)
scan_ends_example = scan_ends counting (b'F' ∷ b'B' ∷ [])

read_all-write_log_example :
    (w : RawLogWriter) × (rd : RawLogReader) × (write_log counting counting-IsCrc32 1 5 6 []
        (note ∷ [])
      ≡ ok w)
    × (from_reader w.w ≡ ok rd)
    × (rd.header
        ≡ record { version = 1; venue = 1; start_wall_ns = 5; start_mono_ns = 6; meta = [] })
    × (read_all counting (suc (length rd.r)) rd
        ≡ some (record {
          read = note ∷ [];
          reader = record rd { r = []; offset = w.bytes };
          failure = none;
        }))
    × (w.bytes ≡ length w.w)
    × (w.records ≡ 1)
read_all-write_log_example =
    read_all-write_log counting counting-IsCrc32 1 5 6 [] (note ∷ []) log-IsHeader
      (note-IsWritable, tt)
