-- ===== src/Lob/Sync.antt =====
-- When a book is live: the sync state after a stream of events, and how many events were dropped
-- (crates/lob/src/book.rs, by way of the ordered-map book).
use flashbook.Prelude.{
  ℕ, ◌+◌, ◌≡◌, refl, ap, sym, ◌∙◌, arith, Bool, true, false, not, ◌&&◌, ◌||◌, List, [], ◌∷◌, Result,
  ok, if◌then◌else◌,
}
use flashbook.Proto.Event.{Event, EventKind, event_kind, snap_begin, snap_end}
use flashbook.Lob.Book.{Apply, SyncState, unsynced, filling, synced, is_synced_state}
use flashbook.Lob.Book.Steps.{
  opens, closes, resets, next_state, is_dropped, apply_common-state, apply_common-dropped,
}
use flashbook.Lob.Run.{run}
use flashbook.Lob.BTree.{BTreeBook, apply, l2_book, level_ops}

-- No reset among the events.
unfoldable pub quiet : List Event → Bool
quiet [] = true
quiet (ev ∷ evs) = not (resets (event_kind ev)) && quiet evs

-- Somewhere a snapshot ends, with no reset before or after.
unfoldable pub closing : List Event → Bool
unfolding quiet
closing [] = false
closing (ev ∷ evs) =
    closes (event_kind ev) && quiet evs || not (resets (event_kind ev)) && closing evs

-- Somewhere a snapshot begins and ends, with no reset in it or after it.
unfoldable pub live : List Event → Bool
unfolding closing
live [] = false
live (ev ∷ evs) = opens (event_kind ev) && closing evs || live evs

apply-state :
    (ev : Event) (b : BTreeBook) → (apply ev b).0.state ≡ next_state (event_kind ev) b.state
unfolding apply
apply-state ev b = apply_common-state level_ops ev _

-- Whether the book is live in the end, from each state.
abbrev live_from : SyncState → List Event → Bool
live_from unsynced evs = live evs
live_from filling evs = closing evs || live evs
live_from synced evs = quiet evs || live evs

closing→quiet_step :
    (k : Result EventKind ℕ) (q c : Bool)
    → (c ≡ true → q ≡ true)
    → (closes k && q || not (resets k) && c) ≡ true
    → (not (resets k) && q) ≡ true
closing→quiet_step (ok snap_begin) q c f h = ground arith
closing→quiet_step k q c f h = ground arith

closing→quiet : (evs : List Event) → closing evs ≡ true → quiet evs ≡ true
unfolding closing
closing→quiet [] h = cc
closing→quiet (ev ∷ evs) h =
    closing→quiet_step (event_kind ev) (quiet evs) (closing evs) (closing→quiet evs) h

-- `live_from` before and after one event, of which `q`, `c` and `l` tell the rest.
abbrev judge : SyncState → Bool → Bool → Bool → Bool
judge unsynced q c l = l
judge filling q c l = c || l
judge synced q c l = q || l

judge_step :
    (k : Result EventKind ℕ) (s : SyncState) (q c l : Bool)
    → (c ≡ true → q ≡ true)
    → judge (next_state k s) q c l
      ≡ judge s (not (resets k) && q) (closes k && q || not (resets k) && c) (opens k && c || l)
judge_step (ok snap_begin) unsynced q c l h = ground arith
judge_step (ok snap_begin) filling q c l h = ground arith
judge_step (ok snap_begin) synced q c l h = ground arith
judge_step (ok snap_end) unsynced q c l h = ground arith
judge_step (ok snap_end) filling q c l h = ground arith
judge_step (ok snap_end) synced q c l h = ground arith
judge_step k unsynced q c l h = ground arith
judge_step k filling q c l h = ground arith
judge_step k synced q c l h = ground arith

live_from-judge :
    (s : SyncState) (evs : List Event)
    → live_from s evs ≡ judge s (quiet evs) (closing evs) (live evs)
live_from-judge unsynced evs = refl
live_from-judge filling evs = refl
live_from-judge synced evs = refl

live_from_step :
    (ev : Event) (evs : List Event) (s : SyncState)
    → live_from (next_state (event_kind ev) s) evs ≡ live_from s (ev ∷ evs)
unfolding live
live_from_step ev evs s =
    live_from-judge (next_state (event_kind ev) s) evs
    ∙ judge_step (event_kind ev) s (quiet evs) (closing evs) (live evs) (closing→quiet evs)
    ∙ sym (live_from-judge s (ev ∷ evs))

live_from-nil : (s : SyncState) → is_synced_state s ≡ live_from s []
unfolding live
live_from-nil unsynced = refl
live_from-nil filling = refl
live_from-nil synced = refl

run-live_from :
    (evs : List Event) (b : BTreeBook)
    → is_synced_state (run l2_book evs b).0.state ≡ live_from b.state evs
unfolding run
run-live_from [] b = live_from-nil b.state
run-live_from (ev ∷ evs) b =
    run-live_from evs (apply ev b).0
    ∙ ap (λ s. live_from s evs) (apply-state ev b)
    ∙ live_from_step ev evs b.state

-- A book that starts unsynced is synced after a stream of events exactly when somewhere in the
-- stream a snapshot begins and later ends, and no snapshot begin, clear or gap stands between the
-- two or after the end.
pub is_synced-run :
    (evs : List Event) (b : BTreeBook)
    → b.state ≡ unsynced
    → l2_book.is_synced (run l2_book evs b).0 ≡ live evs
is_synced-run evs b h = run-live_from evs b ∙ ap (λ s. live_from s evs) h

abbrev pub count_dropped : List Apply → ℕ
count_dropped [] = 0
count_dropped (r ∷ rs) = (if is_dropped r then 1 else 0) + count_dropped rs

apply-dropped :
    (ev : Event) (b : BTreeBook)
    → (apply ev b).0.dropped ≡ (if is_dropped (apply ev b).1 then b.dropped + 1 else b.dropped)
unfolding apply
apply-dropped ev b = apply_common-dropped level_ops ev _

-- The counter has grown by exactly the number of events that were answered with
-- `DroppedUnsynced`.
pub dropped-run :
    (evs : List Event) (b : BTreeBook)
    → l2_book.dropped_unsynced (run l2_book evs b).0
      ≡ b.dropped + count_dropped (run l2_book evs b).1
unfolding run
dropped-run [] b = omega arith
dropped-run (ev ∷ evs) b = ground (arith, dropped-run evs (apply ev b).0, apply-dropped ev b)
