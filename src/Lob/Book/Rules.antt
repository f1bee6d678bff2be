-- ===== src/Lob/Book/Rules.antt =====
-- Two rules for `apply_common`: what the level operations keep it keeps, and representations whose
-- level operations agree answer every event alike.
use flashbook.Prelude.{ℕ, ◌+◌, ◌%◌, ◌^◌, ◌⊎◌, ◌≡◌, refl, arith, inl, inr, Result, ok, err, ap}
use flashbook.Prelude.Int.{ℤ}
use flashbook.Proto.Event.{
  Event, EventKind, Side, bid, ask, event_kind, bid_set, ask_set, trade, snap_begin, snap_bid,
  snap_ask, snap_end, checksum, heartbeat, gap, clear,
}
use flashbook.Lob.Book.{
  Apply, SyncState, LevelOps, Shared, apply_common, apply_kind, apply_delta, apply_snap, unsynced,
  filling, synced, mutated,
}

pub decoded : (r : Result EventKind ℕ) → ((k : EventKind) × (r ≡ ok k)) ⊎ ((n : ℕ) × (r ≡ err n))
decoded (ok k) = inl (k, refl)
decoded (err n) = inr (n, refl)

module _ {B : Type 0} (ops : LevelOps B) (P : B → Type 0)
    (set_keeps : (side : Side) (p q : ℤ) (b : B) → P b → P (ops.set_level side p q b).0)
    (clear_keeps : (b : B) → P b → P (ops.clear_levels b)) where
  apply_delta-keeps :
      (side : Side) (ev : Event) (s : Shared B)
      → P s.levels
      → P (apply_delta ops side ev s).0.levels
  unfolding apply_delta
  apply_delta-keeps side ev s h = ground (arith, set_keeps side ev.price ev.qty s.levels h)

  apply_snap-keeps :
      (side : Side) (ev : Event) (s : Shared B) → P s.levels → P (apply_snap ops side ev s).0.levels
  unfolding apply_snap
  apply_snap-keeps side ev s h = ground (arith, set_keeps side ev.price ev.qty s.levels h)

  apply_kind-keeps :
      (k : EventKind) (ev : Event) (s : Shared B) → P s.levels → P (apply_kind ops k ev s).0.levels
  unfolding apply_kind
  apply_kind-keeps bid_set ev s h = apply_delta-keeps bid ev s h
  apply_kind-keeps ask_set ev s h = apply_delta-keeps ask ev s h
  apply_kind-keeps snap_begin ev s h = clear_keeps s.levels h
  apply_kind-keeps snap_bid ev s h = apply_snap-keeps bid ev s h
  apply_kind-keeps snap_ask ev s h = apply_snap-keeps ask ev s h
  apply_kind-keeps snap_end ev s h = ground arith
  apply_kind-keeps checksum ev s h = h
  apply_kind-keeps clear ev s h = clear_keeps s.levels h
  apply_kind-keeps gap ev s h = h
  apply_kind-keeps trade ev s h = h
  apply_kind-keeps heartbeat ev s h = h

  pub apply_common-keeps :
      (ev : Event) (s : Shared B) → P s.levels → P (apply_common ops ev s).0.levels
  unfolding apply_common
  apply_common-keeps ev s h = elim (decoded (event_kind ev)) [
    | inl (k, e) ↦ rw (e, apply_common) (apply_kind-keeps k ev s h)
    | inr (n, e) ↦ rw (e, apply_common) h
  ]

-- The outcomes of one event on two books that had dropped `d` and `d'` events: related levels, the
-- same state and answer, and as many more dropped events.
pub record Agree {A B : Type 0} (R : A → B → Type 0) (d d' : ℕ) (x : Shared A × Apply)
    (y : Shared B × Apply) : Type 0 where
  pub levels : R x.0.levels y.0.levels
  pub state : x.0.state ≡ y.0.state
  pub dropped : x.0.dropped + d' ≡ y.0.dropped + d
  pub answer : x.1 ≡ y.1

module _ {A B : Type 0} (ops : LevelOps A) (ops' : LevelOps B) (R : A → B → Type 0)
    (set_agrees : (side : Side) (p q : ℤ) (a : A) (b : B)
      → R a b
      → R (ops.set_level side p q a).0 (ops'.set_level side p q b).0
        × ((ops.set_level side p q a).1 ≡ (ops'.set_level side p q b).1))
    (clear_agrees : (a : A) (b : B) → R a b → R (ops.clear_levels a) (ops'.clear_levels b)) (a : A)
    (b : B) (d d' : ℕ) (related : R a b) where
  abbrev left : SyncState → Shared A
  left st = record { levels = a; state = st; dropped = d }

  abbrev right : SyncState → Shared B
  right st = record { levels = b; state = st; dropped = d' }

  same :
      (st : SyncState) (k : ℕ) (r : Apply)
      → Agree R d d'
          (record (left st) { dropped = d + k }, r)
          (record (right st) { dropped = d' + k }, r)
  same st k r = record { levels = related; state = refl; dropped = omega arith; answer = refl }

  -- An event that leaves the levels and the counters alone.
  still : (st : SyncState) (r : Apply) → Agree R d d' (left st, r) (right st, r)
  still st r = record { levels = related; state = refl; dropped = omega arith; answer = refl }

  apply_delta-agrees :
      (side : Side) (ev : Event) (st : SyncState)
      → Agree R d d' (apply_delta ops side ev (left st)) (apply_delta ops' side ev (right st))
  unfolding apply_delta
  apply_delta-agrees side ev unsynced = same unsynced 1 Apply.dropped_unsynced
  apply_delta-agrees side ev filling = same filling 1 Apply.dropped_unsynced
  apply_delta-agrees side ev synced =
      let (after, told) = set_agrees side ev.price ev.qty a b related in
      record { levels = after; state = refl; dropped = omega arith; answer = ap mutated told }

  apply_snap-agrees :
      (side : Side) (ev : Event) (st : SyncState)
      → Agree R d d' (apply_snap ops side ev (left st)) (apply_snap ops' side ev (right st))
  unfolding apply_snap
  apply_snap-agrees side ev unsynced = same unsynced 1 Apply.dropped_unsynced
  apply_snap-agrees side ev synced = same synced 1 Apply.dropped_unsynced
  apply_snap-agrees side ev filling =
      let (after, _) = set_agrees side ev.price ev.qty a b related in
      record { levels = after; state = refl; dropped = omega arith; answer = refl }

  abbrev AgreesOn : EventKind → Event → SyncState → Type 0
  AgreesOn k ev st = Agree R d d' (apply_kind ops k ev (left st)) (apply_kind ops' k ev (right st))

  snap_end-agrees : (ev : Event) (st : SyncState) → AgreesOn snap_end ev st
  unfolding apply_kind
  snap_end-agrees ev unsynced = same unsynced 1 Apply.dropped_unsynced
  snap_end-agrees ev filling = still synced (Apply.snapshot_complete (ev.aux % 2 ^ 32))
  snap_end-agrees ev synced = same synced 1 Apply.dropped_unsynced

  apply_kind-agrees : (k : EventKind) (ev : Event) (st : SyncState) → AgreesOn k ev st
  unfolding apply_kind
  apply_kind-agrees bid_set ev st = apply_delta-agrees bid ev st
  apply_kind-agrees ask_set ev st = apply_delta-agrees ask ev st
  apply_kind-agrees snap_begin ev st = record {
    levels = clear_agrees a b related;
    state = refl;
    dropped = omega arith;
    answer = refl;
  }
  apply_kind-agrees snap_bid ev st = apply_snap-agrees bid ev st
  apply_kind-agrees snap_ask ev st = apply_snap-agrees ask ev st
  apply_kind-agrees snap_end ev st = unfold apply_kind in snap_end-agrees ev st
  apply_kind-agrees checksum ev st = still st (Apply.checksum_to_verify (ev.aux % 2 ^ 32))
  apply_kind-agrees clear ev st = record {
    levels = clear_agrees a b related;
    state = refl;
    dropped = omega arith;
    answer = refl;
  }
  apply_kind-agrees gap ev st = still unsynced Apply.gap_marked
  apply_kind-agrees trade ev st = still st Apply.not_book
  apply_kind-agrees heartbeat ev st = still st Apply.not_book

  pub apply_common-agrees :
      (ev : Event) (st : SyncState)
      → Agree R d d'
          (apply_common ops ev (record { levels = a; state = st; dropped = d }))
          (apply_common ops' ev (record { levels = b; state = st; dropped = d' }))
  unfolding apply_common
  apply_common-agrees ev st = elim (decoded (event_kind ev)) [
    | inl (k, e) ↦ rw (e, apply_common) (apply_kind-agrees k ev st)
    | inr (n, e) ↦ rw (e, apply_common) (still st Apply.not_book)
  ]
