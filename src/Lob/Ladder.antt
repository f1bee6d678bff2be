-- ===== src/Lob/Ladder.antt =====
-- crates/lob/src/ladder.rs: the book over two sorted vectors, the best level at the end.
pub mod Refine
pub mod Search
use flashbook.Prelude.{
  ℕ, zero, suc, ◌+◌, ◌-◌, Bool, true, false, not, Option, none, some, List, [], ◌∷◌, length, take,
  drop, last, reverse, ltb, Result, ok, err, Ordering, if◌then◌else◌,
}
use flashbook.Prelude.Int.{ℤ, is_zero, cmp}
use flashbook.Proto.Event.{Event, Side, bid, ask}
use flashbook.Lob.Level.{same_level}
use flashbook.Lob.Book.{
  Level, Apply, SyncState, unsynced, is_synced_state, LevelOps, Shared, L2Book, apply_common,
  digest_from_levels,
}

pub record LadderBook : Type 0 where
  pub bids : List Level
  pub asks : List Level
  pub state : SyncState
  pub dropped : ℕ
  pub max_depth : Option ℕ

-- `LadderBook::new` and `LadderBook::with_max_depth`
abbrev pub new : LadderBook
new = record { bids = []; asks = []; state = unsynced; dropped = 0; max_depth = none }

abbrev pub with_max_depth : ℕ → LadderBook
with_max_depth n = record new { max_depth = some n }

-- How `BookSet` makes a book from its depth cap.
abbrev pub make : Option ℕ → LadderBook
make none = new
make (some n) = with_max_depth n

-- `slice::binary_search_by` of a slice that is sorted by the test: the index of the element that
-- compares equal, or the index at which one could be put.
abbrev shift_index : Result ℕ ℕ → Result ℕ ℕ
shift_index (ok i) = ok (i + 1)
shift_index (err i) = err (i + 1)

binary_search_by : (Level → Ordering) → List Level → Result ℕ ℕ
binary_search_by f [] = err 0
binary_search_by f (x ∷ xs) =
    let rest = shift_index (binary_search_by f xs) in
    elim (f x) [ Ordering.lt ↦ rest | Ordering.eq ↦ ok 0 | Ordering.gt ↦ err 0 ]

-- `LadderBook::find`: bids ascend and asks descend.
find : Side → ℤ → List Level → Result ℕ ℕ
unfolding binary_search_by
find bid price levels = binary_search_by (λ probe. cmp probe.0 price) levels
find ask price levels = binary_search_by (λ probe. cmp price probe.0) levels

-- `v.remove(i)`, `v[i].1 = qty` and `v.insert(i, x)`, at the indices that `find` gives.
remove_at : ℕ → List Level → List Level
remove_at i [] = []
remove_at zero (x ∷ xs) = xs
remove_at (suc i) (x ∷ xs) = x ∷ remove_at i xs

set_qty : ℕ → ℤ → List Level → List Level
set_qty i q [] = []
set_qty zero q ((p, _) ∷ xs) = (p, q) ∷ xs
set_qty (suc i) q (x ∷ xs) = x ∷ set_qty i q xs

insert_at : ℕ → Level → List Level → List Level
insert_at zero y xs = y ∷ xs
insert_at (suc i) y [] = y ∷ []
insert_at (suc i) y (x ∷ xs) = x ∷ insert_at i y xs

-- The match on the result of `find` in `set_level`.
put_level : Result ℕ ℕ → ℤ → ℤ → List Level → List Level
unfolding remove_at set_qty insert_at
put_level (ok idx) price qty v = if is_zero qty then remove_at idx v else set_qty idx qty v
put_level (err idx) price qty v = if is_zero qty then v else insert_at idx (price, qty) v

unfoldable pub set_entry : Side → ℤ → ℤ → List Level → List Level
unfolding put_level find
set_entry side price qty v = put_level (find side price v) price qty v

abbrev pub side_levels : Side → LadderBook → List Level
side_levels bid b = b.bids
side_levels ask b = b.asks

abbrev pub with_side : Side → List Level → LadderBook → LadderBook
with_side bid v b = record b { bids = v }
with_side ask v b = record b { asks = v }

-- `LadderBook::truncate`: the worst levels are at the front.
unfoldable pub truncate_to : Option ℕ → List Level → List Level
truncate_to none v = v
truncate_to (some n) v = if ltb n (length v) then drop (length v - n) v else v

unfoldable pub truncate : Side → LadderBook → LadderBook
unfolding truncate_to
truncate side b = with_side side (truncate_to b.max_depth (side_levels side b)) b

unfoldable pub set_level : Side → ℤ → ℤ → LadderBook → LadderBook × Bool
unfolding truncate set_entry
set_level side price qty b =
    let before = last (side_levels side b) in
    let b' = truncate side (with_side side (set_entry side price qty (side_levels side b)) b) in
    (b', not (same_level before (last (side_levels side b'))))

abbrev pub clear_levels : LadderBook → LadderBook
clear_levels b = record b { bids = []; asks = [] }

abbrev pub level_ops : LevelOps LadderBook
level_ops = record { set_level = set_level; clear_levels = clear_levels }

unfoldable pub apply : Event → LadderBook → LadderBook × Apply
unfolding apply_common set_level
apply ev b =
    let (s, r) =
      apply_common level_ops ev (record { levels = b; state = b.state; dropped = b.dropped }) in
    (record s.levels { state = s.state; dropped = s.dropped }, r)

abbrev pub depth : Side → LadderBook → ℕ
depth side b = length (side_levels side b)

-- The best level is at the end, so the vector is read backwards.
abbrev pub top_n : Side → ℕ → LadderBook → List Level
top_n side n b = take n (reverse (side_levels side b))

abbrev pub clear : LadderBook → LadderBook
clear b = record (clear_levels b) { state = unsynced }

unfoldable pub state_digest : LadderBook → ℕ
unfolding digest_from_levels
state_digest b = digest_from_levels (reverse b.asks) (reverse b.bids) (is_synced_state b.state)

abbrev pub l2_book : L2Book LadderBook
l2_book = record {
  apply = apply;
  best_bid = λ b. last b.bids;
  best_ask = λ b. last b.asks;
  depth = depth;
  top_n = top_n;
  clear = clear;
  is_synced = λ b. is_synced_state b.state;
  dropped_unsynced = λ b. b.dropped;
  state_digest = state_digest;
}
