-- ===== src/Store/Pit/Tests.antt =====
-- An index of a small segment, and the theorems on it.
use flashbook.Prelude.{ℕ, ◌≡◌, refl, ◌≤◌, arith, true, some, List, [], ◌∷◌, ok, err, All, take}
use flashbook.Proto.Event.{Event, zero_event, event_kind, kind_try_from}
use flashbook.Proto.Hasher.Counting.{counting, counting-IsCrc32}
use flashbook.Store.Pit.{
  torn_sidecar, SnapEntry, StoreBlock, insert_by_key, sort_by_key, is_sorted_by_key, build_kind,
  build_events, build_blocks, build, completed, pending_of, remove_pending, latest_at, write_to,
}
use flashbook.Prelude.Bytes.{le_bytes}
use flashbook.Store.Pit.Sidecar.{save, write_entries, from_bytes}
use flashbook.Store.Pit.Sidecar.RoundTrip.{IsPacked, from_bytes-save, from_bytes_torn}
use flashbook.Store.Pit.Window.{Sunk, pit_scan}
use flashbook.Store.Pit.Points.{IsPoint, build-IsPoint, pit_scan-latest_at}
use flashbook.Store.Pit.Delivery.{pit_scan-in_window}
use mathlib.Core.List.Memᴰ.{head}

-- Events of instrument 7 (kinds 4 and 7 are the brackets of a snapshot), and one of another.
abbrev at_time : ℕ → ℕ → ℕ → Event
at_time kind instrument mono = record zero_event {
  kind = kind;
  instrument = instrument;
  recv_mono_ns = mono;
}

abbrev first_events : List Event
first_events = at_time 9 7 4 ∷ at_time 4 7 5 ∷ at_time 3 8 6 ∷ []

abbrev second_events : List Event
second_events = at_time 7 7 8 ∷ at_time 3 7 9 ∷ []

abbrev first_block : StoreBlock ℕ
first_block = record { min_recv_mono = 4; decoded = ok first_events }

abbrev second_block : StoreBlock ℕ
second_block = record { min_recv_mono = 8; decoded = ok second_events }

abbrev segment : List (StoreBlock ℕ)
segment = first_block ∷ second_block ∷ []

abbrev entry : SnapEntry
entry = record { instrument = 7; mono = 5; block_idx = 0; event_idx = 1 }

segment_built : build segment ≡ ok (entry ∷ [])
unfolding build build_blocks build_events build_kind completed pending_of remove_pending sort_by_key
    insert_by_key event_kind kind_try_from
segment_built = refl

build-IsPoint_example : (is_sorted_by_key (entry ∷ []) ≡ true) × All (IsPoint segment) (entry ∷ [])
build-IsPoint_example = build-IsPoint segment (entry ∷ []) segment_built

pit_scan-latest_at_example :
    (e : SnapEntry) × (r : Sunk) × (latest_at (entry ∷ []) 7 8 ≡ some e)
    × (e.instrument ≡ 7)
    × (e.mono ≤ 8)
    × (5 ≤ e.mono)
    × (pit_scan segment e 8 ≡ ok r)
pit_scan-latest_at_example =
    pit_scan-latest_at segment (entry ∷ []) entry 8 segment_built (head refl) (omega arith)

entry-IsPoint : IsPoint segment entry
unfolding event_kind kind_try_from
entry-IsPoint = record {
  block = first_block;
  behind = second_block ∷ [];
  events = first_events;
  event = at_time 4 7 5;
  at_block = refl;
  read = refl;
  at_event = refl;
  same = refl;
}

pit_scan-in_window_example : pit_scan segment entry 8 ≡ ok (2, at_time 4 7 5 ∷ at_time 7 7 8 ∷ [])
unfolding entry-IsPoint
pit_scan-in_window_example =
    pit_scan-in_window segment entry 8 entry-IsPoint
      (
        (omega arith, (omega arith, (omega arith, tt))),
        ((omega arith, (omega arith, tt)), ((omega arith, tt), (tt, tt))),
      )
      ((second_events, refl), (omega arith, (omega arith, tt)), tt)

entry-IsPacked : IsPacked entry
entry-IsPacked = record {
  instrument = omega arith;
  mono = omega arith;
  block_idx = omega arith;
  event_idx = omega arith;
}

one_sorted : is_sorted_by_key (entry ∷ []) ≡ true
unfolding is_sorted_by_key
one_sorted = refl

from_bytes-save_example :
    (bytes : List ℕ) × (save ℕ counting (entry ∷ []) ≡ ok bytes)
    × (from_bytes ℕ counting bytes ≡ ok (entry ∷ []))
from_bytes-save_example =
    from_bytes-save ℕ counting (entry ∷ []) counting-IsCrc32 (entry-IsPacked, tt) one_sorted
      (omega arith)

-- The sidecar of the one entry, whose checksum counts the 20 bytes.
abbrev one_file : List ℕ
one_file =
    70 ∷ 66 ∷ 83 ∷ 78 ∷ 80 ∷ 73 ∷ 88 ∷ 49 ∷ 1 ∷ 0 ∷ 0 ∷ 0 ∷ 1 ∷ 0 ∷ 0 ∷ 0 ∷ 7 ∷ 0 ∷ 0 ∷ 0 ∷ 5 ∷ 0
    ∷ 0 ∷ 0 ∷ 0 ∷ 0 ∷ 0 ∷ 0 ∷ 0 ∷ 0 ∷ 0 ∷ 0 ∷ 1 ∷ 0 ∷ 0 ∷ 0 ∷ 20 ∷ 0 ∷ 0 ∷ 0 ∷ []

one_saved : save ℕ counting (entry ∷ []) ≡ ok one_file
unfolding save write_entries write_to le_bytes
one_saved = refl

from_bytes_torn_example :
    from_bytes ℕ counting (take 30 one_file) ≡ err (torn_sidecar "truncated entries")
from_bytes_torn_example =
    from_bytes_torn ℕ counting (entry ∷ []) one_file 30 one_saved (omega arith)
