-- ===== src/Lob/Run.antt =====
-- A stream of events applied to a book, and when two books cannot be told apart by the trait
-- `L2Book` (crates/lob/src/book.rs).
use flashbook.Prelude.{ℕ, ◌≡◌, List, [], ◌∷◌}
use flashbook.Proto.Event.{Event, Side}
use flashbook.Lob.Book.{Apply, L2Book}

module _ {B : Type 0} (book : L2Book B) where
  -- The book after the events, and what each event was answered.
  unfoldable pub run : List Event → B → B × List Apply
  run [] b = (b, [])
  run (ev ∷ evs) b = let (b', r) = book.apply ev b in let (b'', rs) = run evs b' in (b'', r ∷ rs)

-- Equal answers to every reading method of the trait.
pub record Indistinguishable {A B : Type 0} (left : L2Book A) (right : L2Book B) (a : A) (b : B)
    : Type 0 where
  pub best_bid : left.best_bid a ≡ right.best_bid b
  pub best_ask : left.best_ask a ≡ right.best_ask b
  pub depth : (side : Side) → left.depth side a ≡ right.depth side b
  pub top_n : (side : Side) (n : ℕ) → left.top_n side n a ≡ right.top_n side n b
  pub is_synced : left.is_synced a ≡ right.is_synced b
  pub dropped_unsynced : left.dropped_unsynced a ≡ right.dropped_unsynced b
  pub state_digest : left.state_digest a ≡ right.state_digest b
