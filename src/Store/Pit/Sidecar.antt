-- ===== src/Store/Pit/Sidecar.antt =====
-- crates/store/src/pit.rs: the sidecar file of an index, as the list of its bytes.
pub mod RoundTrip
use flashbook.Prelude.{
  ℕ, zero, suc, ◌+◌, ◌-◌, ◌*◌, ◌^◌, Bool, true, false, List, [], ◌∷◌, ◌++◌, length, take, drop, ltb,
  ◌==◌, not, if◌then◌else◌, Result, ok, err,
}
use flashbook.Prelude.Bytes.{le_bytes, same_bytes}
use flashbook.Prelude.Results.{◌>>=◌}
use flashbook.Proto.Hasher.{Hasher, hash}
use flashbook.Store.Pit.{
  PitError, torn_sidecar, corrupt_sidecar, build_error, SnapEntry, pit_magic, pit_version,
  pit_header_len, pit_entry_len, write_to, read_from, le_slice, is_sorted_by_key,
}
use Prim.Native.Nat.{min}

-- The loop that writes the entries.
unfoldable pub write_entries : List SnapEntry → List ℕ → List ℕ
write_entries [] out = out
write_entries (e ∷ es) out = write_entries es (write_to e out)

-- The loop over `chunks_exact`, with `n` entries to go.
read_entries : ℕ → List ℕ → List SnapEntry
read_entries zero b = []
read_entries (suc n) b = read_from (take pit_entry_len b) ∷ read_entries n (drop pit_entry_len b)

module _ (E : Type 0) (hasher : Hasher) where
  -- `SnapshotIndex::save`: the bytes that it writes.
  unfoldable pub save : List SnapEntry → Result (List ℕ) (PitError E)
  save entries =
      let body = write_entries entries [] in
      if ltb (length entries) (2 ^ 32)
      then ok (
          pit_magic
          ++ (pit_version
              ∷ 0
              ∷ 0
              ∷ 0
              ∷ (le_bytes 4 (length entries) ++ (body ++ le_bytes 4 (hash hasher body)))))
      else err (build_error "too many entries")

  -- The entries, behind the checks of the header.
  with_count : ℕ → List ℕ → Result (List SnapEntry) (PitError E)
  with_count n bytes =
      let need = pit_header_len + n * pit_entry_len + 4 in
      let body = take (n * pit_entry_len) (drop pit_header_len bytes) in
      let entries = read_entries n body in
      if ltb (length bytes) need
      then err (torn_sidecar "truncated entries")
      else if ltb need (length bytes)
      then err (corrupt_sidecar "trailing bytes")
      else if not (hash hasher body == le_slice bytes (need - 4) 4)
      then err (corrupt_sidecar "crc mismatch")
      else if is_sorted_by_key entries
      then ok entries
      else err (corrupt_sidecar "entries not sorted")

  -- `SnapshotIndex::from_bytes`
  pub from_bytes : List ℕ → Result (List SnapEntry) (PitError E)
  from_bytes bytes =
      let m = min (length bytes) 8 in
      if not (same_bytes (take m bytes) (take m pit_magic))
      then err (corrupt_sidecar "bad magic")
      else if ltb (length bytes) pit_header_len
      then err (torn_sidecar "short header")
      else if not (le_slice bytes 8 1 == pit_version)
      then err (corrupt_sidecar "unsupported version")
      else if not (same_bytes (take 3 (drop 9 bytes)) (0 ∷ 0 ∷ 0 ∷ []))
      then err (corrupt_sidecar "nonzero reserved bytes")
      else with_count (le_slice bytes 12 4) bytes
