-- ===== src/Lob/BTree/Invariant.antt =====
-- The invariant of the ordered-map book: both sides ascend strictly, no level is empty, and the
-- depth cap holds.
use flashbook.Prelude.{
  ℕ, zero, suc, ◌+◌, ◌-◌, ◌≤◌, ◌<◌, ◌≡◌, refl, ap₂, sym, ◌∙◌, arith, false, Option, none, some,
  List, [], ◌∷◌, length, All, take, drop, take_all, length-take, length-drop, ltb, Bool-cases, inl,
  inr,
}
use flashbook.Prelude.Int.{ℤ, is_zero}
use flashbook.Proto.Event.{Event, Side, bid, ask}
use flashbook.Lob.OrderedMap.{OrderedMap, pop_last}
use flashbook.Lob.OrderedMap.Laws.{
  IsSorted, insert-IsSorted, remove-IsSorted, drop-IsSorted, take-IsSorted, All-insert, All-remove,
  All-drop, All-take,
}
use flashbook.Lob.Book.Rules.{apply_common-keeps}
use flashbook.Lob.Run.{run}
use flashbook.Lob.BTree.{
  BTreeBook, make, l2_book, clear_levels, level_ops, apply, pop_bids, pop_asks, truncate_to,
  set_entry, set_level,
}

-- What the two loops of `truncate` leave.
pop_bids-eq-drop :
    (rounds n : ℕ) (m : OrderedMap)
    → length m ≤ rounds + n
    → pop_bids rounds n m ≡ drop (length m - n) m
unfolding pop_bids
pop_bids-eq-drop zero n m h = let none_left : length m - n ≡ 0 = omega arith in rw none_left
pop_bids-eq-drop (suc rounds) n [] h =
    let none_left : 0 - n ≡ 0 = omega arith in rw none_left (ground arith)
pop_bids-eq-drop (suc rounds) n (e ∷ m) h = elim (Bool-cases (ltb n (suc (length m)))) [
  | inl more ↦
      let one_more : suc (length m) - n ≡ suc (length m - n) = ground arith in
      rw (more, one_more) (pop_bids-eq-drop rounds n m (omega arith))
  | inr done ↦ let none_left : suc (length m) - n ≡ 0 = ground arith in rw (done, none_left)
]

take-pop_last : (n : ℕ) (m : OrderedMap) → n < length m → take n (pop_last m) ≡ take n m
take-pop_last n [] h = absurd (omega arith)
take-pop_last zero (e ∷ m) h = refl
take-pop_last (suc n) (e ∷ []) h = absurd (omega arith)
take-pop_last (suc n) (e ∷ e' ∷ m) h = ap₂ ◌∷◌ refl (take-pop_last n (e' ∷ m) (omega arith))

length-pop_last : (m : OrderedMap) → length (pop_last m) ≡ length m - 1
length-pop_last [] = omega arith
length-pop_last (e ∷ []) = omega arith
length-pop_last (e ∷ e' ∷ m) = omega (arith, length-pop_last (e' ∷ m))

pop_asks-eq-take :
    (rounds n : ℕ) (m : OrderedMap) → length m ≤ rounds + n → pop_asks rounds n m ≡ take n m
unfolding pop_asks
pop_asks-eq-take zero n m h = sym (take_all n m (omega arith))
pop_asks-eq-take (suc rounds) n m h = elim (Bool-cases (ltb n (length m))) [
  | inl more ↦ rw more (
      pop_asks-eq-take rounds n (pop_last m) (omega (arith, length-pop_last m))
      ∙ take-pop_last n m (ground arith))
  | inr done ↦ rw done (sym (take_all n m (ground arith)))
]

-- `truncate` keeps the `n` best entries of a side.
pub truncate_bid : (n : ℕ) (m : OrderedMap) → truncate_to bid (some n) m ≡ drop (length m - n) m
unfolding truncate_to
truncate_bid n m = pop_bids-eq-drop (length m) n m (omega arith)

pub truncate_ask : (n : ℕ) (m : OrderedMap) → truncate_to ask (some n) m ≡ take n m
unfolding truncate_to
truncate_ask n m = pop_asks-eq-take (length m) n m (omega arith)

pub truncate-none : (side : Side) (m : OrderedMap) → truncate_to side none m ≡ m
unfolding truncate_to
truncate-none bid m = refl
truncate-none ask m = refl

abbrev pub NonZero : ℤ × ℤ → Type 0
NonZero (p, q) = is_zero q ≡ false

abbrev pub Fits : Option ℕ → OrderedMap → Type 0
Fits none m = Unit
Fits (some n) m = length m ≤ n

Fits-nil : (cap : Option ℕ) → Fits cap []
Fits-nil none = tt
Fits-nil (some n) = omega arith

pub record IsValidSide (cap : Option ℕ) (m : OrderedMap) : Type 0 where
  pub sorted : IsSorted m
  pub non_zero : All NonZero m
  pub fits : Fits cap m

pub record IsValid (b : BTreeBook) : Type 0 where
  pub valid_bids : IsValidSide b.max_depth b.bids
  pub valid_asks : IsValidSide b.max_depth b.asks

pub set_entry-IsSorted : (p q : ℤ) (m : OrderedMap) → IsSorted m → IsSorted (set_entry p q m)
unfolding set_entry
set_entry-IsSorted p q m s = ground (arith, insert-IsSorted p q m, remove-IsSorted p m)

set_entry-NonZero : (p q : ℤ) (m : OrderedMap) → All NonZero m → All NonZero (set_entry p q m)
unfolding set_entry
set_entry-NonZero p q m a = elim (Bool-cases (is_zero q)) [
  | inl gone ↦ rw gone (All-remove NonZero p m a)
  | inr stays ↦ rw stays (All-insert NonZero p q m stays a)
]

-- Whatever a side held before, it is valid after an entry is set and the side is truncated.
set_side-IsValidSide :
    (side : Side) (cap : Option ℕ) (p q : ℤ) (m : OrderedMap)
    → IsSorted m
    → All NonZero m
    → IsValidSide cap (truncate_to side cap (set_entry p q m))
set_side-IsValidSide side none p q m s z = rw truncate-none (record {
  sorted = set_entry-IsSorted p q m s;
  non_zero = set_entry-NonZero p q m z;
  fits = tt;
})
set_side-IsValidSide bid (some n) p q m s z = rw truncate_bid (record {
  sorted = drop-IsSorted _ (set_entry p q m) (set_entry-IsSorted p q m s);
  non_zero = All-drop NonZero _ (set_entry p q m) (set_entry-NonZero p q m z);
  fits = omega (arith, length-drop (length (set_entry p q m) - n) (set_entry p q m));
})
set_side-IsValidSide ask (some n) p q m s z = rw truncate_ask (record {
  sorted = take-IsSorted n (set_entry p q m) (set_entry-IsSorted p q m s);
  non_zero = All-take NonZero n (set_entry p q m) (set_entry-NonZero p q m z);
  fits = length-take n (set_entry p q m);
})

pub set_level-IsValid :
    (side : Side) (p q : ℤ) (b : BTreeBook) → IsValid b → IsValid (set_level side p q b).0
unfolding set_level
set_level-IsValid bid p q b v = record {
  valid_bids =
      set_side-IsValidSide bid b.max_depth p q b.bids v.valid_bids.sorted v.valid_bids.non_zero;
  valid_asks = v.valid_asks;
}
set_level-IsValid ask p q b v = record {
  valid_bids = v.valid_bids;
  valid_asks =
      set_side-IsValidSide ask b.max_depth p q b.asks v.valid_asks.sorted v.valid_asks.non_zero;
}

pub clear_levels-IsValid : (b : BTreeBook) → IsValid b → IsValid (clear_levels b)
clear_levels-IsValid b v = record {
  valid_bids = record { sorted = tt; non_zero = tt; fits = Fits-nil b.max_depth };
  valid_asks = record { sorted = tt; non_zero = tt; fits = Fits-nil b.max_depth };
}

-- Every event keeps the invariant.
pub apply-IsValid : (ev : Event) (b : BTreeBook) → IsValid b → IsValid (apply ev b).0
unfolding apply
apply-IsValid ev b v =
    let kept : IsValid _ =
      apply_common-keeps level_ops IsValid set_level-IsValid clear_levels-IsValid ev
        (record { levels = b; state = b.state; dropped = b.dropped }) v in
    record { valid_bids = kept.valid_bids; valid_asks = kept.valid_asks }

run_keeps : (evs : List Event) (b : BTreeBook) → IsValid b → IsValid (run l2_book evs b).0
unfolding run
run_keeps [] b v = v
run_keeps (ev ∷ evs) b v = run_keeps evs (apply ev b).0 (apply-IsValid ev b v)

pub make-IsValid : (cap : Option ℕ) → IsValid (make cap)
make-IsValid none = omega arith
make-IsValid (some n) = omega arith

-- From a new book on, with or without a depth cap, both sides stay strictly ascending, hold no
-- level of quantity 0, and no more levels than the cap, whatever events are applied.
pub run-IsValid : (cap : Option ℕ) (evs : List Event) → IsValid (run l2_book evs (make cap)).0
run-IsValid cap evs = run_keeps evs (make cap) (make-IsValid cap)
