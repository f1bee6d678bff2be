-- ===== src/Lob/Book/Steps.antt =====
-- What one event does to the sync state and to the count of dropped events, whatever keeps the
-- levels.
use flashbook.Prelude.{
  ℕ, ◌+◌, ◌≡◌, refl, arith, Bool, true, false, ◌&&◌, Result, ok, if◌then◌else◌, inl, inr,
}
use flashbook.Proto.Event.{
  Event, EventKind, event_kind, bid_set, ask_set, snap_begin, snap_bid, snap_ask, snap_end, gap,
  clear,
}
use flashbook.Lob.Book.{
  Apply, SyncState, unsynced, filling, synced, Shared, apply_common, apply_kind, is_filling_state,
  LevelOps, dropped_unsynced, snapshot_started,
}
use flashbook.Lob.Book.Rules.{decoded}

abbrev pub opens : Result EventKind ℕ → Bool
opens (ok snap_begin) = true
opens _ = false

abbrev pub closes : Result EventKind ℕ → Bool
closes (ok snap_end) = true
closes _ = false

-- The kinds after which only a new snapshot makes the book live again.
abbrev pub resets : Result EventKind ℕ → Bool
resets (ok snap_begin) = true
resets (ok clear) = true
resets (ok gap) = true
resets _ = false

-- The state that a decoded event leads to.
abbrev pub next_state : Result EventKind ℕ → SyncState → SyncState
next_state k s =
    if opens k
    then filling
    else if resets k
    then unsynced
    else if closes k && is_filling_state s
    then synced
    else s

apply_kind-state :
    {B : Type 0} (ops : LevelOps B) (k : EventKind) (ev : Event) (s : Shared B)
    → (apply_kind ops k ev s).0.state ≡ next_state (ok k) s.state
unfolding apply_kind
apply_kind-state ops bid_set ev s = ground arith
apply_kind-state ops ask_set ev s = ground arith
apply_kind-state ops snap_bid ev s = ground arith
apply_kind-state ops snap_ask ev s = ground arith
apply_kind-state ops snap_end ev s = ground arith
apply_kind-state ops k ev s = refl

pub apply_common-state :
    {B : Type 0} (ops : LevelOps B) (ev : Event) (s : Shared B)
    → (apply_common ops ev s).0.state ≡ next_state (event_kind ev) s.state
unfolding apply_common
apply_common-state ops ev s = elim (decoded (event_kind ev)) [
  | inl (k, e) ↦ rw (e, apply_common) (apply_kind-state ops k ev s)
  | inr (n, e) ↦ rw (e, apply_common)
]

abbrev pub is_dropped : Apply → Bool
is_dropped dropped_unsynced = true
is_dropped _ = false

apply_kind-dropped :
    {B : Type 0} (ops : LevelOps B) (k : EventKind) (ev : Event) (s : Shared B)
    → (apply_kind ops k ev s).0.dropped
      ≡ (if is_dropped (apply_kind ops k ev s).1 then s.dropped + 1 else s.dropped)
unfolding apply_kind
apply_kind-dropped ops bid_set ev s = ground arith
apply_kind-dropped ops ask_set ev s = ground arith
apply_kind-dropped ops snap_bid ev s = ground arith
apply_kind-dropped ops snap_ask ev s = ground arith
apply_kind-dropped ops snap_end ev s = ground arith
apply_kind-dropped ops k ev s = refl

pub apply_common-dropped :
    {B : Type 0} (ops : LevelOps B) (ev : Event) (s : Shared B)
    → (apply_common ops ev s).0.dropped
      ≡ (if is_dropped (apply_common ops ev s).1 then s.dropped + 1 else s.dropped)
unfolding apply_common
apply_common-dropped ops ev s = elim (decoded (event_kind ev)) [
  | inl (k, e) ↦ rw (e, apply_common) (apply_kind-dropped ops k ev s)
  | inr (n, e) ↦ rw (e, apply_common)
]

-- The begin of a snapshot.
pub apply_common_begin :
    {B : Type 0} (ops : LevelOps B) (ev : Event) (s : Shared B)
    → event_kind ev ≡ ok snap_begin
    → apply_common ops ev s
      ≡ (record s { levels = ops.clear_levels s.levels; state = filling }, snapshot_started)
unfolding apply_common apply_kind
apply_common_begin ops ev s e = rw (e, apply_common)
