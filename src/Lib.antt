-- ===== src/Lib.antt =====
-- flashbook: a market-data pipeline. Feed handlers turn venue messages into normalized events
-- (crates/proto), a lock-free ring hands them on (crates/bus), order books are rebuilt from them
-- (crates/lob), columns of them are stored in compressed form (crates/store), and raw captures of the
-- venues are merged for a replay (crates/replay).
--
-- The parts and their files
-- - Prelude: numbers, Booleans, options, results and lists that the other files share. Prelude/Int
--   has the integers over the native numbers with the two's complement of i64, Prelude/Bits the bit
--   operations, Prelude/Bytes numbers in little-endian bytes, Prelude/Slices cuts of byte lists and
--   Prelude/Results the chains of fallible steps.
-- - Proto/Event (crates/proto/src/event.rs): `Venue`, `Side`, `EventKind`, the `Event` record with
--   the source's fields, and the accessors `kind`, `venue`, `side`, `is_book` as `event_kind` and
--   so on. Kinds and venues are the raw bytes, as in the source.
-- - Proto/Fixed (crates/proto/src/fixed.rs): `parse_fixed`, `scale_mantissa`, `format_fixed`.
-- - Proto/KrakenCrc (crates/proto/src/kraken_crc.rs): `kraken_book_crc32`, over any hasher.
-- - Proto/Instrument (crates/proto/src/instrument.rs): `Registry`.
-- - Proto/RawLog (crates/proto/src/rawlog.rs): the raw log segment over files as lists of bytes:
--   `create`, `append`, `from_reader`, `read_next`, `scan`, `truncate_to_valid`. Proto/Hasher is the
--   interface of `crc32fast` that this, the checksum and the blocks are written over.
-- - Lob/Book (crates/lob/src/book.rs): `apply_common`, which decides what an event does to a book
--   by its kind and the sync state, over the two operations of `LevelOps`; the `L2Book` interface;
--   the FNV digest.
-- - Lob/BTree (crates/lob/src/btree.rs) and Lob/Ladder (crates/lob/src/ladder.rs): the two
--   implementations of `L2Book`, one over an ordered map and one over sorted arrays.
-- - Lob/BookSet (crates/lob/src/lib.rs): one book for each instrument, made at its first event.
-- - Lob/Run: a stream of events applied to any `L2Book`, and when two books cannot be told apart.
-- - Bus/Ring (crates/bus/src/ring.rs): `publish` and `try_next` cut into one step for each access
--   to shared memory, and `run`, which interleaves the two threads by any schedule. Bus/Ring/Size
--   has the number of slots that `ring` makes for a capacity, and the shift.
-- - Feed/Scan and Feed/Time (crates/feed/src/scan.rs): the byte cursor, and `parse_rfc3339_ns` with
--   its calendar.
-- - Store/Varint (crates/store/src/varint.rs): zigzag, varints and the column codecs.
-- - Store/Block (crates/store/src/block.rs): `encode_block`; Store/Block/Header has `parse_header` and
--   `read_body`, Store/Block/Decode `decode_block` of both versions and Store/Block/Decode/Select
--   `decode_block_columns`. The checksum and zstd are parameters.
-- - Store/Pit (crates/store/src/pit.rs): `SnapshotIndex::build` and `latest_at` over the blocks of a
--   segment; Store/Pit/Sidecar has `save` and `from_bytes`, Store/Pit/Window `pit_scan`.
-- - Replay/Source (crates/replay/src/source.rs): `VenueCursor::next_record` over the segments of a
--   venue and `MergedStream::next` over the venues. A compressed segment is a stream, decompressed
--   as it is read: it may break off with an error behind the bytes that it gave.
--
-- How state is modelled
-- A method that takes `&mut self` is a function from the state to the new state and the answer. The
-- books of both kinds keep the fields of the source's structs. `BTreeMap` is the list of its
-- entries in ascending order; `HashMap` is an association list, and nothing is said that depends on
-- its order. `binary_search_by` returns what its documentation promises on a sorted slice. An event
-- that `BookSet` sees goes to the entry of its instrument, a new one if there is none.
-- A file is the list of its bytes; a reader of bytes returns what is left of them. The checksum and
-- the compressor are records of functions, with the laws that their documentation promises. The
-- reader of a segment is the list of its blocks, each decoded or failed.
--
-- Bounds
-- i64 and u64 values wrap around where the source uses wrapping arithmetic; `put_uvarint` shifts a
-- u64 to 0 in at most 9 rounds behind the first byte; `scan` reads at least a byte in every round
-- that goes on, so one round more than the file has bytes is enough; a u64 has at most 20 decimal
-- digits. A usize has 64 bits, and `next_power_of_two` wraps around to 0 above 2^63, as it does in
-- a release build; `trailing_zeros` looks at 64 bits. The drop counter, the ring's sequence numbers
-- and its versions, and the counters of records and bytes are unbounded numbers: a u64 that counts
-- events does not wrap around in the life of a process.
--
-- Not modelled
-- The ring's memory is sequentially consistent, so the fences and orderings of the source are not
-- part of the model, and one consumer is enough, since consumers only read. The release build is
-- modelled: a `debug_assert!` does nothing. Files never fail to be opened, read, written or synced,
-- and memory does not run out. Sockets, clocks and JSON are left out, and so are the writer and the
-- directory of segment files, the directory walk and the reports of the replay, and the venue
-- codecs.
pub mod Prelude
pub mod Proto
pub mod Lob
pub mod Store
pub mod Bus
pub mod Feed
pub mod Replay
