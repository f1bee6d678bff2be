-- ===== src/Store/Pit/Window.antt =====
-- crates/store/src/pit.rs: `pit_scan`, whose sink keeps the events that it is given.
use flashbook.Prelude.{
  ℕ, ◌+◌, Bool, true, false, Option, some, List, [], ◌∷◌, ◌++◌, get_elem?, drop, ltb, ◌==◌, ◌&&◌,
  if◌then◌else◌, Result, ok, err,
}
use flashbook.Prelude.Results.{◌>>=◌, ok_or}
use flashbook.Proto.Event.{Event, EventKind, snap_begin}
use flashbook.Store.Pit.{PitError, mismatch, SnapEntry, StoreBlock, kind_of, decode}

-- The counter, and what the sink was given.
abbrev pub Sunk : Type 0
Sunk = ℕ × List Event

-- An event of the instrument goes to the sink.
abbrev pub sink : ℕ → Event → Sunk → Sunk
sink id e (n, sunk) = if e.instrument == id then (n + 1, sunk ++ (e ∷ [])) else (n, sunk)

-- The loop over the events of a block: whether it came to an event past `t_mono`.
unfoldable pub window_events : ℕ → ℕ → List Event → Sunk → Bool × Sunk
window_events id t_mono [] s = (false, s)
window_events id t_mono (e ∷ events) s =
    let rest = window_events id t_mono events (sink id e s) in
    if ltb t_mono e.recv_mono_ns then (true, s) else rest

-- `e.kind().ok() != Some(EventKind::SnapBegin)`, negated.
abbrev pub is_snap_begin : Option EventKind → Bool
is_snap_begin (some snap_begin) = true
is_snap_begin _ = false

-- The entry is that of this event.
abbrev pub points_at : SnapEntry → Event → Bool
points_at entry e =
    is_snap_begin (kind_of e) && e.instrument == entry.instrument && e.recv_mono_ns == entry.mono

module _ {E : Type 0} where
  -- `return Ok(n)` in the middle, or the next block.
  abbrev pub unless_past :
      Bool × Sunk → (Sunk → Result Sunk (PitError E)) → Result Sunk (PitError E)
  unless_past (true, s) next = ok s
  unless_past (false, s) next = next s

  -- The blocks behind the first one.
  unfoldable pub window_blocks : ℕ → ℕ → List (StoreBlock E) → Sunk → Result Sunk (PitError E)
  window_blocks id t_mono [] s = ok s
  window_blocks id t_mono (b ∷ blocks) s =
      if ltb t_mono b.min_recv_mono
      then ok s
      else (decode b.decoded >>= λ events.
          unless_past (window_events id t_mono events s) (window_blocks id t_mono blocks))

  -- The event that the entry gives, in the block `events`.
  unfoldable pub window_at :
      SnapEntry → ℕ → List (StoreBlock E) → List Event → Event → Result Sunk (PitError E)
  window_at entry t_mono blocks events e =
      let first = window_events entry.instrument t_mono (drop entry.event_idx events) (0, []) in
      if points_at entry e
      then unless_past first (window_blocks entry.instrument t_mono blocks)
      else err (mismatch "entry does not point at its SnapBegin")

  -- The block of the entry, and the ones behind it.
  unfoldable pub window_from : List (StoreBlock E) → SnapEntry → ℕ → Result Sunk (PitError E)
  window_from [] entry t_mono = err (mismatch "entry block_idx out of range")
  window_from (b ∷ blocks) entry t_mono = do
    events ← decode b.decoded
    e ← ok_or (get_elem? events entry.event_idx) (mismatch "entry event_idx out of range")
    window_at entry t_mono blocks events e

  -- `pit_scan`
  unfoldable pub pit_scan : List (StoreBlock E) → SnapEntry → ℕ → Result Sunk (PitError E)
  pit_scan blocks entry t_mono = window_from (drop entry.block_idx blocks) entry t_mono
