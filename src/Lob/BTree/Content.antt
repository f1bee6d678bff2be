-- ===== src/Lob/BTree/Content.antt =====
-- What `set_level` does to the two price-to-quantity maps of a book, and which levels the depth
-- cap keeps.
use flashbook.Prelude.{
  length-take_le, ℕ, zero, suc, ◌-◌, ◌≡◌, refl, ap, ◌∙◌, arith, Bool, true, false, Option, none,
  some, List, [], ◌∷◌, ◌++◌, length, All, take, drop, length-drop, first, last, ◌&&◌, if◌then◌else◌,
  Bool-cases, inl, inr,
}
use flashbook.Prelude.Int.{ℤ, is_zero, eqb_ℤ, ◌<ℤ◌, ◌≤ℤ◌}
use flashbook.Proto.Event.{Side, bid, ask}
use flashbook.Lob.OrderedMap.{OrderedMap, get}
use flashbook.Lob.OrderedMap.Laws.{IsSorted, get-insert, get-remove}
use flashbook.Lob.BTree.{BTreeBook, truncate_to, side_map, set_entry, set_level, l2_book}
use flashbook.Lob.BTree.Invariant.{
  IsValid, truncate_bid, truncate_ask, truncate-none, set_entry-IsSorted,
}

abbrev pub same_side : Side → Side → Bool
same_side bid bid = true
same_side ask ask = true
same_side _ _ = false

-- What a book holds at a price.
abbrev pub quantity : Side → ℤ → BTreeBook → Option ℤ
quantity side price b = get price (side_map side b)

get-set_entry :
    (p q j : ℤ) (m : OrderedMap)
    → IsSorted m
    → get j (set_entry p q m)
      ≡ (if eqb_ℤ p j then (if is_zero q then none else some q) else get j m)
unfolding set_entry
get-set_entry p q j m s = elim (Bool-cases (is_zero q)) [
  | inl e ↦ rw e (get-remove p j m s)
  | inr e ↦ rw e (get-insert p j q m s)
]

-- Without a depth cap, `set_level` changes the quantity at one price of one side: to the new
-- quantity, or to no level if that is 0. Every other price of either side keeps what it had.
pub quantity-set_level :
    (side : Side) (p q : ℤ) (b : BTreeBook)
    → IsValid b
    → b.max_depth ≡ none
    → (side' : Side) (j : ℤ)
    → quantity side' j (set_level side p q b).0 ≡ (
        if same_side side side' && eqb_ℤ p j
        then (if is_zero q then none else some q)
        else quantity side' j b)
unfolding set_level
quantity-set_level bid p q b v e bid j =
    ap (λ cap. get j (truncate_to bid cap (set_entry p q b.bids))) e
    ∙ ap (get j) (truncate-none bid (set_entry p q b.bids))
    ∙ get-set_entry p q j b.bids v.valid_bids.sorted
quantity-set_level bid p q b v e ask j = refl
quantity-set_level ask p q b v e bid j = refl
quantity-set_level ask p q b v e ask j =
    ap (λ cap. get j (truncate_to ask cap (set_entry p q b.asks))) e
    ∙ ap (get j) (truncate-none ask (set_entry p q b.asks))
    ∙ get-set_entry p q j b.asks v.valid_asks.sorted

take-drop : {A : Type 0} (n : ℕ) (xs : List A) → take n xs ++ drop n xs ≡ xs
take-drop zero xs = refl
take-drop (suc n) [] = refl
take-drop (suc n) (x ∷ xs) = ap (λ l. x ∷ l) (take-drop n xs)

last-highest :
    (m : OrderedMap) (p q : ℤ) → IsSorted m → last m ≡ some (p, q) → All (λ e. e.0 ≤ℤ p) m
last-highest [] p q s h = tt
last-highest (e ∷ []) p q s h = ground arith
last-highest (e ∷ e' ∷ m) p q s h = ground (arith, last-highest (e' ∷ m) p q)

Above-le : (k : ℤ) (m : OrderedMap) → All (λ e. k <ℤ e.0) m → All (λ e. k ≤ℤ e.0) m
Above-le k [] a = tt
Above-le k (e ∷ m) a = (omega arith, Above-le k m a.1)

first-lowest :
    (m : OrderedMap) (p q : ℤ) → IsSorted m → first m ≡ some (p, q) → All (λ e. p ≤ℤ e.0) m
first-lowest [] p q s h = tt
first-lowest (e ∷ m) p q s h = ground (arith, Above-le e.0 m)

-- In a valid book no bid is above the best bid, and no ask below the best ask.
pub best_bounds :
    (b : BTreeBook) (p q : ℤ)
    → IsValid b
    → (l2_book.best_bid b ≡ some (p, q) → All (λ e. e.0 ≤ℤ p) b.bids)
      × (l2_book.best_ask b ≡ some (p, q) → All (λ e. p ≤ℤ e.0) b.asks)
best_bounds b p q v =
    (last-highest b.bids p q v.valid_bids.sorted, first-lowest b.asks p q v.valid_asks.sorted)

-- The levels of a side in the order from the best to the worst, as `m` would give them, split
-- where the cap cuts.
abbrev pub Split : Side → OrderedMap → OrderedMap → OrderedMap → Type 0
Split bid worse kept m = worse ++ kept ≡ m
Split ask worse kept m = kept ++ worse ≡ m

-- With a depth cap `n`, `set_level` leaves on its side the `n` best levels of the side with the
-- level set (all of them, if there are no more): what it drops stands at the worse end of that
-- side's ascending levels, the lowest bids or the highest asks, and is what exceeds `n`.
pub set_level-keeps_best :
    (side : Side) (p q : ℤ) (b : BTreeBook) (n : ℕ)
    → IsValid b
    → b.max_depth ≡ some n
    → (worse : OrderedMap) × Split side worse
        (side_map side (set_level side p q b).0)
        (set_entry p q (side_map side b))
      × (length worse ≡ length (set_entry p q (side_map side b)) - n)
      × IsSorted (set_entry p q (side_map side b))
unfolding set_level
set_level-keeps_best bid p q b n v e =
    let m = set_entry p q b.bids in
    let over = length m - n in
    (
      take over m,
      ap (λ kept. take over m ++ kept) (ap (λ cap. truncate_to bid cap m) e ∙ truncate_bid n m)
          ∙ take-drop over m,
      length-take_le over m (omega arith),
      set_entry-IsSorted p q b.bids v.valid_bids.sorted,
    )
set_level-keeps_best ask p q b n v e =
    let m = set_entry p q b.asks in
    (
      drop n m,
      ap (λ kept. kept ++ drop n m) (ap (λ cap. truncate_to ask cap m) e ∙ truncate_ask n m)
          ∙ take-drop n m,
      length-drop n m,
      set_entry-IsSorted p q b.asks v.valid_asks.sorted,
    )
