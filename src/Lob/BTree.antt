-- ===== src/Lob/BTree.antt =====
-- crates/lob/src/btree.rs: the book over two ordered maps.
pub mod Invariant
pub mod Content
use flashbook.Prelude.{
  ℕ, zero, suc, Bool, true, false, not, Option, none, some, List, [], ◌∷◌, length, take, reverse,
  ltb, is_none, if◌then◌else◌,
}
use flashbook.Prelude.Int.{ℤ, is_zero, eqb_ℤ}
use flashbook.Proto.Event.{Event, Side, bid, ask}
use flashbook.Lob.OrderedMap.{
  OrderedMap, insert, remove, first_key_value, last_key_value, pop_first, pop_last,
}
use flashbook.Lob.Level.{same_level}
use flashbook.Lob.Book.{
  Level, Apply, SyncState, unsynced, is_synced_state, LevelOps, Shared, L2Book, apply_common,
  digest_from_levels,
}

pub record BTreeBook : Type 0 where
  pub bids : OrderedMap
  pub asks : OrderedMap
  pub state : SyncState
  pub dropped : ℕ
  pub max_depth : Option ℕ

-- `BTreeBook::new` and `BTreeBook::with_max_depth`
abbrev pub new : BTreeBook
new = record { bids = []; asks = []; state = unsynced; dropped = 0; max_depth = none }

abbrev pub with_max_depth : ℕ → BTreeBook
with_max_depth n = record new { max_depth = some n }

-- How `BookSet` makes a book from its depth cap.
abbrev pub make : Option ℕ → BTreeBook
make none = new
make (some n) = with_max_depth n

-- `while bids.len() > n { bids.pop_first() }` and its twin: each round takes one entry away, so
-- as many rounds as there are entries are enough.
pop_bids : ℕ → ℕ → OrderedMap → OrderedMap
pop_bids zero n m = m
pop_bids (suc rounds) n m =
    let rest = pop_bids rounds n (pop_first m) in if ltb n (length m) then rest else m

pop_asks : ℕ → ℕ → OrderedMap → OrderedMap
pop_asks zero n m = m
pop_asks (suc rounds) n m =
    let rest = pop_asks rounds n (pop_last m) in if ltb n (length m) then rest else m

unfoldable pub truncate_to : Side → Option ℕ → OrderedMap → OrderedMap
unfolding pop_bids pop_asks
truncate_to side none m = m
truncate_to bid (some n) m = pop_bids (length m) n m
truncate_to ask (some n) m = pop_asks (length m) n m

abbrev pub side_map : Side → BTreeBook → OrderedMap
side_map bid b = b.bids
side_map ask b = b.asks

abbrev pub with_side : Side → OrderedMap → BTreeBook → BTreeBook
with_side bid m b = record b { bids = m }
with_side ask m b = record b { asks = m }

-- `BTreeBook::truncate`
unfoldable pub truncate : Side → BTreeBook → BTreeBook
unfolding truncate_to
truncate side b = with_side side (truncate_to side b.max_depth (side_map side b)) b

-- The side's best level.
abbrev pub best : Side → BTreeBook → Option Level
best bid b = last_key_value b.bids
best ask b = first_key_value b.asks

unfoldable pub set_entry : ℤ → ℤ → OrderedMap → OrderedMap
unfolding insert remove
set_entry price qty m = if is_zero qty then remove price m else insert price qty m

unfoldable pub set_level : Side → ℤ → ℤ → BTreeBook → BTreeBook × Bool
unfolding truncate set_entry insert remove
set_level side price qty b =
    let before = best side b in
    let b' = truncate side (with_side side (set_entry price qty (side_map side b)) b) in
    (b', not (same_level before (best side b')))

abbrev pub clear_levels : BTreeBook → BTreeBook
clear_levels b = record b { bids = []; asks = [] }

abbrev pub level_ops : LevelOps BTreeBook
level_ops = record { set_level = set_level; clear_levels = clear_levels }

-- The state and the counter are copied out, handed to `apply_common` and copied back.
unfoldable pub apply : Event → BTreeBook → BTreeBook × Apply
unfolding apply_common set_level
apply ev b =
    let (s, r) =
      apply_common level_ops ev (record { levels = b; state = b.state; dropped = b.dropped }) in
    (record s.levels { state = s.state; dropped = s.dropped }, r)

abbrev pub depth : Side → BTreeBook → ℕ
depth side b = length (side_map side b)

abbrev pub top_n : Side → ℕ → BTreeBook → List Level
top_n bid n b = take n (reverse b.bids)
top_n ask n b = take n b.asks

abbrev pub clear : BTreeBook → BTreeBook
clear b = record (clear_levels b) { state = unsynced }

unfoldable pub state_digest : BTreeBook → ℕ
unfolding digest_from_levels
state_digest b = digest_from_levels b.asks (reverse b.bids) (is_synced_state b.state)

abbrev pub l2_book : L2Book BTreeBook
l2_book = record {
  apply = apply;
  best_bid = λ b. last_key_value b.bids;
  best_ask = λ b. first_key_value b.asks;
  depth = depth;
  top_n = top_n;
  clear = clear;
  is_synced = λ b. is_synced_state b.state;
  dropped_unsynced = λ b. b.dropped;
  state_digest = state_digest;
}
