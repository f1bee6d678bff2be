-- ===== src/Lob/Ladder/Search.antt =====
-- The ladder's binary search, insertion and removal do on a vector what the ordered map does, for
-- the bids in the same order and for the asks in the opposite one.
use flashbook.Prelude.{
  ℕ, ◌≡◌, refl, ap, sym, ◌∙◌, arith, Result, ok, err, List, [], ◌∷◌, ◌++◌, reverse, All, Ordering,
  if◌then◌else◌, Bool-cases, inl, inr,
}
use flashbook.Prelude.Int.{ℤ, is_zero, cmp, cmp-eq, ◌<ℤ◌}
use flashbook.Proto.Event.{bid, ask}
use flashbook.Lob.Book.{Level}
use flashbook.Lob.OrderedMap.{OrderedMap, insert, remove}
use flashbook.Lob.OrderedMap.Laws.{IsSorted}
use flashbook.Lob.BTree
use flashbook.Lob.Ladder.{binary_search_by, find, put_level, set_entry, shift_index}
use mathlib.Core.List.{reverse-cons, append_assoc}

-- A search that passes over the first element goes on in the rest.
put_level-cons :
    (r : Result ℕ ℕ) (p q : ℤ) (x : Level) (v : List Level)
    → put_level (shift_index r) p q (x ∷ v) ≡ x ∷ put_level r p q v
unfolding put_level
put_level-cons (ok i) p q x v = ground arith
put_level-cons (err i) p q x v = ground arith

-- One step of setting an entry: what stands at `x`, by how the search compares it.
abbrev step_at : Ordering → ℤ → ℤ → Level → List Level → List Level → List Level
step_at Ordering.lt p q x v rest = x ∷ rest
step_at Ordering.eq p q (j, w) v rest = if is_zero q then v else (j, q) ∷ v
step_at Ordering.gt p q x v rest = if is_zero q then x ∷ v else (p, q) ∷ x ∷ v

put_level_step :
    (o : Ordering) (r : Result ℕ ℕ) (p q : ℤ) (x : Level) (v : List Level)
    → put_level
        (elim o [ Ordering.lt ↦ shift_index r | Ordering.eq ↦ ok 0 | Ordering.gt ↦ err 0 ])
        p
        q
        (x ∷ v)
      ≡ step_at o p q x v (put_level r p q v)
put_level_step Ordering.lt r p q x v = put_level-cons r p q x v
put_level_step Ordering.eq r p q (j, w) v = unfold put_level in refl
put_level_step Ordering.gt r p q x v = unfold put_level in refl

set_entry_bid_step :
    (p q j w : ℤ) (v : List Level)
    → set_entry bid p q ((j, w) ∷ v) ≡ step_at (cmp j p) p q (j, w) v (set_entry bid p q v)
unfolding set_entry find binary_search_by
set_entry_bid_step p q j w v = put_level_step (cmp j p) (find bid p v) p q (j, w) v

set_entry_ask_step :
    (p q j w : ℤ) (v : List Level)
    → set_entry ask p q ((j, w) ∷ v) ≡ step_at (cmp p j) p q (j, w) v (set_entry ask p q v)
unfolding set_entry find binary_search_by
set_entry_ask_step p q j w v = put_level_step (cmp p j) (find ask p v) p q (j, w) v

-- The bids: no order is needed.
pub set_entry_bid : (p q : ℤ) (v : List Level) → set_entry bid p q v ≡ BTree.set_entry p q v
set_entry_bid p q [] = unfold set_entry BTree.set_entry in refl
set_entry_bid p q ((j, w) ∷ v) =
    set_entry_bid_step p q j w v
    ∙ rw (set_entry_bid p q v) (unfold BTree.set_entry insert remove in ground (arith, cmp-eq p j))

All_last : (k j w : ℤ) (m : OrderedMap) → All (λ e. k <ℤ e.0) (m ++ ((j, w) ∷ [])) → k <ℤ j
All_last k j w [] a = a.0
All_last k j w (e ∷ m) a = All_last k j w m a.1

-- An entry set in a map whose last entry is known.
insert-snoc :
    (k v j w : ℤ) (m : OrderedMap)
    → IsSorted (m ++ ((j, w) ∷ []))
    → insert k v (m ++ ((j, w) ∷ [])) ≡ elim (cmp k j) [
      | Ordering.lt ↦ insert k v m ++ ((j, w) ∷ [])
      | Ordering.eq ↦ m ++ ((k, v) ∷ [])
      | Ordering.gt ↦ m ++ ((j, w) ∷ (k, v) ∷ [])
    ]
unfolding insert
insert-snoc k v j w [] s = ground arith
insert-snoc k v j w ((i, u) ∷ m) s = ground (arith, insert-snoc k v j w m, All_last i j w m s.0)

remove-snoc :
    (k j w : ℤ) (m : OrderedMap)
    → IsSorted (m ++ ((j, w) ∷ []))
    → remove k (m ++ ((j, w) ∷ [])) ≡ elim (cmp k j) [
      | Ordering.lt ↦ remove k m ++ ((j, w) ∷ [])
      | Ordering.eq ↦ m
      | Ordering.gt ↦ m ++ ((j, w) ∷ [])
    ]
unfolding remove
remove-snoc k j w [] s = ground arith
remove-snoc k j w ((i, u) ∷ m) s = ground (arith, remove-snoc k j w m, All_last i j w m s.0)

All-front {ℓ} : (P : Level → Type ℓ) (m n : OrderedMap) → All P (m ++ n) → All P m
All-front P [] n a = tt
All-front P (x ∷ m) n a = (a.0, All-front P m n a.1)

IsSorted-front : (m n : OrderedMap) → IsSorted (m ++ n) → IsSorted m
IsSorted-front [] n s = tt
IsSorted-front ((k, v) ∷ m) n s = (All-front (λ e. k <ℤ e.0) m n s.0, IsSorted-front m n s.1)

-- `step_at` seen from the far end: `rest` has the entry set below `x`.
abbrev snoc_at : Ordering → ℤ → ℤ → Level → OrderedMap → OrderedMap → OrderedMap
snoc_at Ordering.lt p q x m rest = rest ++ (x ∷ [])
snoc_at Ordering.eq p q (j, w) m rest = if is_zero q then m else m ++ ((j, q) ∷ [])
snoc_at Ordering.gt p q x m rest = if is_zero q then m ++ (x ∷ []) else m ++ (x ∷ (p, q) ∷ [])

set_entry-snoc :
    (p q j w : ℤ) (m : OrderedMap)
    → IsSorted (m ++ ((j, w) ∷ []))
    → BTree.set_entry p q (m ++ ((j, w) ∷ []))
      ≡ snoc_at (cmp p j) p q (j, w) m (BTree.set_entry p q m)
unfolding BTree.set_entry
set_entry-snoc p q j w m s = ground (arith, insert-snoc p q j w m, remove-snoc p j w m, cmp-eq p j)

reverse-step_at :
    (o : Ordering) (p q j w : ℤ) (v rest : List Level)
    → reverse (step_at o p q (j, w) v rest) ≡ snoc_at o p q (j, w) (reverse v) (reverse rest)
reverse-step_at Ordering.lt p q j w v rest = reverse-cons (j, w) rest
reverse-step_at Ordering.eq p q j w v rest = elim (Bool-cases (is_zero q)) [
  | inl e ↦ rw e
  | inr e ↦ rw e (reverse-cons (j, q) v)
]
reverse-step_at Ordering.gt p q j w v rest = elim (Bool-cases (is_zero q)) [
  | inl e ↦ rw e (reverse-cons (j, w) v)
  | inr e ↦ rw e (
      reverse-cons (p, q) ((j, w) ∷ v)
      ∙ ap (λ t. t ++ ((p, q) ∷ [])) (reverse-cons (j, w) v)
      ∙ append_assoc (reverse v) ((j, w) ∷ []) ((p, q) ∷ []))
]

-- The asks: the vector is the ordered map read backwards.
pub set_entry_ask :
    (p q : ℤ) (v : List Level)
    → IsSorted (reverse v)
    → reverse (set_entry ask p q v) ≡ BTree.set_entry p q (reverse v)
set_entry_ask p q [] s = elim (Bool-cases (is_zero q)) [
  | inl e ↦ unfold set_entry BTree.set_entry in rw e
  | inr e ↦ unfold set_entry BTree.set_entry in rw e
]
set_entry_ask p q ((j, w) ∷ v) s =
    let s' : IsSorted (reverse v ++ ((j, w) ∷ [])) = rw (reverse-cons) at s in
    ap reverse (set_entry_ask_step p q j w v)
    ∙ reverse-step_at (cmp p j) p q j w v (set_entry ask p q v)
    ∙ ap (snoc_at (cmp p j) p q (j, w) (reverse v))
        (set_entry_ask p q v (IsSorted-front (reverse v) ((j, w) ∷ []) s'))
    ∙ sym (set_entry-snoc p q j w (reverse v) s')
    ∙ ap (BTree.set_entry p q) (sym (reverse-cons (j, w) v))
