-- ===== src/Lob/Tests.antt =====
-- Concrete runs of the books, and the theorems at concrete inputs.
use flashbook.Prelude.{
  ℕ, ◌+◌, ◌-◌, ◌≡◌, refl, arith, true, none, some, List, [], ◌∷◌, length, ok, if◌then◌else◌, ◌&&◌,
}
use flashbook.Prelude.Int.{pos, is_zero, eqb_ℤ}
use flashbook.Proto.Event.{
  Event, EventKind, bid, ask, zero_event, kind_to_u8, event_kind, kind_try_from, snap_begin,
  snap_bid, snap_ask, snap_end, bid_set, ask_set,
}
use flashbook.Lob.Book.{Apply, synced}
use flashbook.Lob.Run.{run, Indistinguishable}
use flashbook.Lob.BTree
use flashbook.Lob.BTree.Invariant.{IsValid, run-IsValid, make-IsValid}
use flashbook.Lob.BTree.Content.{
  quantity, same_side, quantity-set_level, set_level-keeps_best, Split,
}
use flashbook.Lob.OrderedMap.{OrderedMap}
use flashbook.Lob.OrderedMap.Laws.{IsSorted}
use flashbook.Lob.Ladder
use flashbook.Lob.Ladder.Refine.{ladder-eq-btree}
use flashbook.Lob.Sync.{live, is_synced-run, dropped-run, count_dropped}
use flashbook.Lob.Resync.{resync}
use flashbook.Lob.BookSet.{BookSet, new, get, combined_digest}
use flashbook.Lob.BookSet.Routing.{run_set, events_of, answers_of, seen, run_set_routes}
use flashbook.Lob.BookSet.Digest.{combined_digest_perm}
use mathlib.Core.List.{Permᴰ}

abbrev level_event : EventKind → ℕ → ℕ → ℕ → Event
level_event k id p q = record zero_event {
  kind = kind_to_u8 k;
  instrument = id;
  price = pos p;
  qty = pos q;
}

abbrev plain_event : EventKind → ℕ → Event
plain_event k id = record zero_event { kind = kind_to_u8 k; instrument = id }

-- A snapshot of three levels, then a removal and a change.
abbrev session : List Event
session =
    plain_event snap_begin 1
    ∷ level_event snap_bid 1 100 5
    ∷ level_event snap_bid 1 99 7
    ∷ level_event snap_ask 1 101 4
    ∷ plain_event snap_end 1
    ∷ level_event bid_set 1 100 0
    ∷ level_event ask_set 1 102 9
    ∷ []

-- The answers of the last two events: the best bid changed, the best ask did not.
session_best : BTree.l2_book.best_bid (run BTree.l2_book session BTree.new).0 ≡ some (pos 99, pos 7)
unfolding run BTree.apply kind_to_u8 event_kind kind_try_from
session_best = refl

session_capped :
    Ladder.l2_book.top_n ask 5 (run Ladder.l2_book session (Ladder.with_max_depth 1)).0
    ≡ (pos 101, pos 4) ∷ []
unfolding run Ladder.apply kind_to_u8 event_kind kind_try_from
session_capped = refl

ladder-eq-btree_example :
    ((run BTree.l2_book session (BTree.make (some 2))).1
      ≡ (run Ladder.l2_book session (Ladder.make (some 2))).1)
    × Indistinguishable BTree.l2_book Ladder.l2_book
        (run BTree.l2_book session (BTree.make (some 2))).0
        (run Ladder.l2_book session (Ladder.make (some 2))).0
ladder-eq-btree_example = ladder-eq-btree (some 2) session

run-IsValid_example : IsValid (run BTree.l2_book session (BTree.make (some 2))).0
run-IsValid_example = run-IsValid (some 2) session

is_synced-run_example :
    BTree.l2_book.is_synced (run BTree.l2_book session BTree.new).0 ≡ live session
is_synced-run_example = is_synced-run session BTree.new refl

session-live : live session ≡ true
unfolding live kind_to_u8 event_kind kind_try_from
session-live = refl

dropped-run_example :
    BTree.l2_book.dropped_unsynced (run BTree.l2_book session BTree.new).0
    ≡ 0 + count_dropped (run BTree.l2_book session BTree.new).1
dropped-run_example = dropped-run session BTree.new

-- A book with levels of its own, and one that is new.
abbrev stale : BTree.BTreeBook
stale = record BTree.new { bids = (pos 7, pos 1) ∷ []; state = synced; dropped = 3 }

stale-IsValid : IsValid stale
stale-IsValid = record {
  valid_bids = record { sorted = (tt, tt); non_zero = (refl, tt); fits = tt };
  valid_asks = record { sorted = tt; non_zero = tt; fits = tt };
}

begin_decodes : event_kind (plain_event snap_begin 1) ≡ ok snap_begin
unfolding event_kind kind_try_from kind_to_u8
begin_decodes = refl

abbrev after_begin : List Event
after_begin = level_event snap_bid 1 100 5 ∷ plain_event snap_end 1 ∷ []

abbrev resynced : BTree.BTreeBook → BTree.BTreeBook × List Apply
resynced b = run BTree.l2_book (plain_event snap_begin 1 ∷ after_begin) b

resync_example :
    ((resynced stale).0.bids ≡ (resynced BTree.new).0.bids)
    × ((resynced stale).0.asks ≡ (resynced BTree.new).0.asks)
    × ((resynced stale).0.state ≡ (resynced BTree.new).0.state)
    × (BTree.l2_book.state_digest (resynced stale).0
        ≡ BTree.l2_book.state_digest (resynced BTree.new).0)
    × ((resynced stale).1 ≡ (resynced BTree.new).1)
resync_example = resync (plain_event snap_begin 1) after_begin stale BTree.new begin_decodes refl

quantity-set_level_example : quantity bid (pos 7) (BTree.set_level bid (pos 7) (pos 2) stale).0 ≡ (
    if same_side bid bid && eqb_ℤ (pos 7) (pos 7)
    then (if is_zero (pos 2) then none else some (pos 2))
    else quantity bid (pos 7) stale)
quantity-set_level_example =
    quantity-set_level bid (pos 7) (pos 2) stale stale-IsValid refl bid (pos 7)

set_level-keeps_best_example :
    (worse : OrderedMap) × Split ask worse
      (BTree.side_map ask (BTree.set_level ask (pos 5) (pos 2) (BTree.make (some 1))).0)
      (BTree.set_entry (pos 5) (pos 2) [])
    × (length worse ≡ length (BTree.set_entry (pos 5) (pos 2) []) - 1)
    × IsSorted (BTree.set_entry (pos 5) (pos 2) [])
set_level-keeps_best_example =
    set_level-keeps_best ask (pos 5) (pos 2) (BTree.make (some 1)) 1 (make-IsValid (some 1)) refl

run_set_routes_example :
    (get 1 (run_set BTree.l2_book session (new none BTree.make)).0
      ≡ seen (events_of 1 session) (run BTree.l2_book (events_of 1 session) (BTree.make none)).0)
    × (answers_of 1 session (run_set BTree.l2_book session (new none BTree.make)).1
        ≡ (run BTree.l2_book (events_of 1 session) (BTree.make none)).1)
run_set_routes_example = run_set_routes BTree.l2_book none BTree.make 1 session

abbrev two_books : BookSet BTree.BTreeBook
two_books = record (new none BTree.make) { books = (2, stale) ∷ (1, BTree.new) ∷ [] }

combined_digest_perm_example :
    combined_digest BTree.l2_book two_books
    ≡ combined_digest BTree.l2_book (record two_books { books = (1, BTree.new) ∷ (2, stale) ∷ [] })
combined_digest_perm_example =
    combined_digest_perm BTree.l2_book two_books ((1, BTree.new) ∷ (2, stale) ∷ [])
      ((omega arith, tt), (tt, tt)) (Permᴰ.swap refl refl)
