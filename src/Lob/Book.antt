-- ===== src/Lob/Book.antt =====
-- crates/lob/src/book.rs: what applying an event answers, the sync state machine that both book
-- representations share, and the state digest. `LevelOps` and `L2Book` are the source's traits.
pub mod Rules
pub mod Steps
use flashbook.Prelude.{
  ℕ, ◌+◌, ◌*◌, ◌/◌, ◌%◌, ◌^◌, Bool, true, false, Option, List, [], ◌∷◌, Result, ok, err,
  if◌then◌else◌,
}
use flashbook.Prelude.Bytes.{le_bytes}
use flashbook.Prelude.Int.{ℤ, to_bits, two_64}
use flashbook.Proto.Event.{
  Event, EventKind, Side, bid, ask, event_kind, bid_set, ask_set, trade, snap_begin, snap_bid,
  snap_ask, snap_end, checksum, heartbeat, gap, clear,
}
use Prim.Native.Nat.{bit_xor}
use mathlib.Core.List.{foldl}

-- A price with its quantity.
abbrev pub Level : Type 0
Level = ℤ × ℤ

pub data Apply : Type 0 where
  mutated : Bool → Apply
  dropped_unsynced : Apply
  snapshot_started : Apply
  snapshot_complete : ℕ → Apply
  checksum_to_verify : ℕ → Apply
  cleared : Apply
  gap_marked : Apply
  not_book : Apply

pub data SyncState : Type 0 where
  unsynced filling synced : SyncState

-- `*state == SyncState::Synced`, `*state == SyncState::Filling`
abbrev pub is_synced_state : SyncState → Bool
is_synced_state synced = true
is_synced_state _ = false

abbrev pub is_filling_state : SyncState → Bool
is_filling_state filling = true
is_filling_state _ = false

-- The trait `LevelOps`: `set_level` also says whether the side's best level changed.
pub record LevelOps (B : Type 0) : Type 0 where
  pub set_level : Side → ℤ → ℤ → B → B × Bool
  pub clear_levels : B → B

-- What `apply_common` works on by mutable reference: the levels, the state and the counter.
pub record Shared (B : Type 0) : Type 0 where
  pub levels : B
  pub state : SyncState
  pub dropped : ℕ

module _ {B : Type 0} (ops : LevelOps B) where
  abbrev drop_event : Shared B → Shared B × Apply
  drop_event s = (record s { dropped = s.dropped + 1 }, dropped_unsynced)

  -- `BidSet | AskSet`
  apply_delta : Side → Event → Shared B → Shared B × Apply
  apply_delta side ev s =
      if is_synced_state s.state
      then (let (b, top_changed) = ops.set_level side ev.price ev.qty s.levels in
          (record s { levels = b }, mutated top_changed))
      else drop_event s

  -- `SnapBid | SnapAsk`
  apply_snap : Side → Event → Shared B → Shared B × Apply
  apply_snap side ev s =
      if is_filling_state s.state
      then (let (b, _) = ops.set_level side ev.price ev.qty s.levels in
          (record s { levels = b }, mutated true))
      else drop_event s

  apply_kind : EventKind → Event → Shared B → Shared B × Apply
  unfolding apply_delta apply_snap
  apply_kind bid_set ev s = apply_delta bid ev s
  apply_kind ask_set ev s = apply_delta ask ev s
  apply_kind snap_begin ev s =
      (record s { levels = ops.clear_levels s.levels; state = filling }, snapshot_started)
  apply_kind snap_bid ev s = apply_snap bid ev s
  apply_kind snap_ask ev s = apply_snap ask ev s
  apply_kind snap_end ev s =
      if is_filling_state s.state
      then (record s { state = synced }, snapshot_complete (ev.aux % 2 ^ 32))
      else drop_event s
  apply_kind checksum ev s = (s, checksum_to_verify (ev.aux % 2 ^ 32))
  apply_kind clear ev s =
      (record s { levels = ops.clear_levels s.levels; state = unsynced }, cleared)
  apply_kind gap ev s = (record s { state = unsynced }, gap_marked)
  apply_kind trade ev s = (s, not_book)
  apply_kind heartbeat ev s = (s, not_book)

  unfoldable pub apply_common : Event → Shared B → Shared B × Apply
  unfolding apply_kind
  apply_common ev s = elim (event_kind ev) [
    | ok kind ↦ apply_kind kind ev s
    | err _ ↦ (s, not_book)
  ]

-- The trait `L2Book`.
pub record L2Book (B : Type 0) : Type 0 where
  pub apply : Event → B → B × Apply
  pub best_bid : B → Option Level
  pub best_ask : B → Option Level
  pub depth : Side → B → ℕ
  pub top_n : Side → ℕ → B → List Level
  pub clear : B → B
  pub is_synced : B → Bool
  pub dropped_unsynced : B → ℕ
  pub state_digest : B → ℕ

-- `Fnv::default()`
abbrev pub fnv_offset : ℕ
fnv_offset = 0xcbf2_9ce4_8422_2325

abbrev fnv_prime : ℕ
fnv_prime = 0x0000_0100_0000_01b3

-- One round of the loop of `Fnv::write`.
write_byte : ℕ → ℕ → ℕ
write_byte h b = bit_xor h b * fnv_prime % two_64

-- `Fnv::write` and `Fnv::write_i64`
unfoldable pub fnv_write : ℕ → List ℕ → ℕ
unfolding write_byte
fnv_write h bytes = foldl write_byte h bytes

unfoldable pub write_i64 : ℕ → ℤ → ℕ
unfolding fnv_write le_bytes
write_i64 h v = fnv_write h (le_bytes 8 (to_bits v))

unfoldable pub write_level : ℕ → Level → ℕ
unfolding write_i64
write_level h (p, q) = write_i64 (write_i64 h p) q

-- `digest_from_levels`
unfoldable pub digest_from_levels : List Level → List Level → Bool → ℕ
unfolding write_level fnv_write
digest_from_levels asks_ascending bids_descending is_synced =
    let h = fnv_write fnv_offset (b'A' ∷ []) in
    let with_asks = foldl write_level h asks_ascending in
    let with_bids = foldl write_level (fnv_write with_asks (b'B' ∷ [])) bids_descending in
    fnv_write with_bids ((if is_synced then 1 else 0) ∷ [])
