-- ===== src/Store/Pit.antt =====
-- crates/store/src/pit.rs: the index of complete snapshots, its sidecar file, and the scan from an
-- entry. The reader of a segment is the list of its blocks, each decoded or with the error that its
-- decoding gives; a `HashMap` is an association list with one entry for a key.
pub mod Sidecar
pub mod Window
pub mod Latest
pub mod Points
pub mod Delivery
mod Tests
use flashbook.Prelude.{
  ℕ, zero, suc, ◌+◌, ◌-◌, ◌*◌, ◌^◌, Bool, true, false, Option, none, some, List, [], ◌∷◌, ◌++◌,
  length, get_elem?, map, take, drop, ltb, leb, ◌==◌, ◌&&◌, ◌||◌, not, if◌then◌else◌, Result, ok,
  err, to_option,
}
use flashbook.Prelude.Bytes.{le_bytes, from_le_bytes}
use flashbook.Prelude.Results.{◌>>=◌, ok_or}
use flashbook.Proto.Hasher.{Hasher, hash}
use flashbook.Proto.Event.{Event, EventKind, snap_begin, snap_end, clear, event_kind, kind_to_u8}
use Prim.Native.Nat.{min}
use Prim.Native.String.{String}

-- The sidecar's constants: `b"FBSNPIX1"`, and so on.
abbrev pub pit_magic : List ℕ
pit_magic = 0x46 ∷ 0x42 ∷ 0x53 ∷ 0x4E ∷ 0x50 ∷ 0x49 ∷ 0x58 ∷ 0x31 ∷ []

abbrev pub pit_version : ℕ
pit_version = 1

abbrev pub pit_header_len : ℕ
pit_header_len = 8 + 1 + 3 + 4

abbrev pub pit_entry_len : ℕ
pit_entry_len = 4 + 8 + 4 + 4

-- `PitError`, without the file's own errors; `E` are those of the segment.
pub data PitError (E : Type 0) : Type 0 where
  segment : E → PitError E
  torn_sidecar corrupt_sidecar mismatch build_error : String → PitError E

pub record SnapEntry : Type 0 where
  pub instrument : ℕ
  pub mono : ℕ
  pub block_idx : ℕ
  pub event_idx : ℕ

-- What `StoreReader` has of a block: the range in its directory, and `decode_block`.
pub record StoreBlock (E : Type 0) : Type 0 where
  pub min_recv_mono : ℕ
  pub decoded : Result (List Event) E

-- `SnapEntry::write_to`
unfoldable pub write_to : SnapEntry → List ℕ → List ℕ
write_to e out =
    out
    ++ (le_bytes 4 e.instrument
        ++ (le_bytes 8 e.mono ++ (le_bytes 4 e.block_idx ++ le_bytes 4 e.event_idx)))

-- `b[from..from + n]` as a number
abbrev pub le_slice : List ℕ → ℕ → ℕ → ℕ
le_slice b from n = from_le_bytes (take n (drop from b))

-- `SnapEntry::read_from`
unfoldable pub read_from : List ℕ → SnapEntry
read_from b = record {
  instrument = le_slice b 0 4;
  mono = le_slice b 4 8;
  block_idx = le_slice b 12 4;
  event_idx = le_slice b 16 4;
}

-- The order of `(e.instrument, e.mono)`
abbrev pub key_le : ℕ × ℕ → ℕ × ℕ → Bool
key_le (i, m) (j, n) = ltb i j || (i == j && leb m n)

abbrev pub key : SnapEntry → ℕ × ℕ
key e = (e.instrument, e.mono)

-- `sort_by_key`, which is stable.
unfoldable pub insert_by_key : SnapEntry → List SnapEntry → List SnapEntry
insert_by_key e [] = e ∷ []
insert_by_key e (x ∷ xs) = if key_le (key e) (key x) then e ∷ x ∷ xs else x ∷ insert_by_key e xs

unfoldable pub sort_by_key : List SnapEntry → List SnapEntry
sort_by_key [] = []
sort_by_key (e ∷ es) = insert_by_key e (sort_by_key es)

-- `is_sorted_by_key`
unfoldable pub is_sorted_by_key : List SnapEntry → Bool
is_sorted_by_key [] = true
is_sorted_by_key (x ∷ []) = true
is_sorted_by_key (x ∷ y ∷ xs) = key_le (key x) (key y) && is_sorted_by_key (y ∷ xs)

-- The snapshot that an instrument has begun.
pub record Pending : Type 0 where
  pub mono : ℕ
  pub block_idx : ℕ
  pub event_idx : ℕ

-- `pending.get(&id)` and `pending.remove(&id)`
unfoldable pub pending_of : ℕ → List (ℕ × Pending) → Option Pending
pending_of id [] = none
pending_of id ((j, p) ∷ ps) = if id == j then some p else pending_of id ps

unfoldable pub remove_pending : ℕ → List (ℕ × Pending) → List (ℕ × Pending)
remove_pending id [] = []
remove_pending id ((j, p) ∷ ps) =
    let rest = remove_pending id ps in if id == j then rest else (j, p) ∷ rest

-- The local variables of `build`.
pub record Building : Type 0 where
  pub pending : List (ℕ × Pending)
  pub entries : List SnapEntry

-- A `SnapEnd`: the entry of the snapshot that was begun, if there is one.
unfoldable pub completed : ℕ → Option Pending → List SnapEntry
completed id none = []
completed id (some p) =
    record { instrument = id; mono = p.mono; block_idx = p.block_idx; event_idx = p.event_idx } ∷ []

-- One event of `build`, the `ei`-th of block `bi`, by its kind.
unfoldable pub build_kind : Option EventKind → ℕ → ℕ → Event → Building → Building
build_kind (some snap_begin) bi ei e s = record s {
  pending =
      (e.instrument, record { mono = e.recv_mono_ns; block_idx = bi; event_idx = ei })
      ∷ remove_pending e.instrument s.pending;
}
build_kind (some clear) bi ei e s = record s { pending = remove_pending e.instrument s.pending }
build_kind (some snap_end) bi ei e s = record {
  pending = remove_pending e.instrument s.pending;
  entries = s.entries ++ completed e.instrument (pending_of e.instrument s.pending);
}
build_kind kind bi ei e s = s

-- `e.kind().ok()`
abbrev pub kind_of : Event → Option EventKind
kind_of e = to_option (event_kind e)

-- The events of a block, from the `ei`-th on.
unfoldable pub build_events : ℕ → ℕ → List Event → Building → Building
build_events bi ei [] s = s
build_events bi ei (e ∷ events) s =
    build_events bi (suc ei) events (build_kind (kind_of e) bi ei e s)

module _ {E : Type 0} where
  -- `reader.decode_block(..)?`
  abbrev pub decode : Result (List Event) E → Result (List Event) (PitError E)
  decode (ok events) = ok events
  decode (err e) = err (segment e)

  -- The blocks from the `bi`-th on.
  unfoldable pub build_blocks : ℕ → List (StoreBlock E) → Building → Result Building (PitError E)
  build_blocks bi [] s = ok s
  build_blocks bi (b ∷ blocks) s =
      if ltb bi (2 ^ 32)
      then (decode b.decoded >>= λ events.
          build_blocks (suc bi) blocks (build_events bi 0 events s))
      else err (build_error "too many blocks")

  -- `SnapshotIndex::build`: the entries of the index.
  unfoldable pub build : List (StoreBlock E) → Result (List SnapEntry) (PitError E)
  build blocks = build_blocks 0 blocks (record { pending = []; entries = [] }) >>= λ s.
      ok (sort_by_key s.entries)

-- `partition_point`: how many entries at the front are in the first part.
unfoldable pub partition_point : ℕ × ℕ → List SnapEntry → ℕ
partition_point k [] = 0
partition_point k (e ∷ es) =
    let rest = partition_point k es in if key_le (key e) k then suc rest else 0

-- `checked_sub(1)`
abbrev pub checked_pred : ℕ → Option ℕ
checked_pred zero = none
checked_pred (suc n) = some n

abbrev pub of_instrument : ℕ → Option SnapEntry → Option SnapEntry
of_instrument id none = none
of_instrument id (some e) = if e.instrument == id then some e else none

abbrev pub entry_at : List SnapEntry → Option ℕ → Option SnapEntry
entry_at es none = none
entry_at es (some i) = get_elem? es i

-- `SnapshotIndex::latest_at`
unfoldable pub latest_at : List SnapEntry → ℕ → ℕ → Option SnapEntry
latest_at es instrument t_mono =
    of_instrument instrument (entry_at es (checked_pred (partition_point (instrument, t_mono) es)))
