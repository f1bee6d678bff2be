-- ===== src/Lob/Ladder/Refine.antt =====
-- The ladder book refines the ordered-map book: the same answers and the same readings.
use flashbook.Prelude.{
  ℕ, ◌+◌, ◌-◌, ◌≡◌, refl, ap, ap₂, sym, ◌∙◌, arith, not, Option, none, some, List, [], ◌∷◌, reverse,
  length, last, ltb, reverse-drop, length-reverse, first-reverse, take_all, Bool-cases, inl, inr,
}
use flashbook.Prelude.Int.{ℤ}
use flashbook.Proto.Event.{Event, Side, bid, ask}
use flashbook.Lob.Level.{same_level}
use flashbook.Lob.Book.{Level}
use flashbook.Lob.Book.Rules.{Agree, apply_common-agrees}
use flashbook.Lob.Run.{run, Indistinguishable}
use flashbook.Lob.BTree
use flashbook.Lob.BTree.{BTreeBook}
use flashbook.Lob.BTree.Invariant.{
  IsValid, IsValidSide, set_level-IsValid, apply-IsValid, truncate_bid, truncate_ask, truncate-none,
  clear_levels-IsValid, make-IsValid,
}
use flashbook.Lob.Ladder.{
  LadderBook, side_levels, truncate_to, set_entry, set_level, level_ops, clear_levels, apply,
  l2_book, state_digest, make,
}
use flashbook.Lob.Ladder.Search.{set_entry_bid, set_entry_ask}
use mathlib.Core.Path.{subst}

-- The ordered-map book that a ladder book stands for.
abbrev pub to_btree : LadderBook → BTreeBook
to_btree l = record {
  bids = l.bids;
  asks = reverse l.asks;
  state = l.state;
  dropped = l.dropped;
  max_depth = l.max_depth;
}

truncate-bids : (cap : Option ℕ) (v : List Level) → truncate_to cap v ≡ BTree.truncate_to bid cap v
truncate-bids none v = unfold truncate_to in sym (truncate-none bid v)
truncate-bids (some n) v = elim (Bool-cases (ltb n (length v))) [
  | inl more ↦ unfold truncate_to in rw (truncate_bid, more)
  | inr fits ↦
      let none_over : length v - n ≡ 0 = ground arith in
      unfold truncate_to in rw (truncate_bid, fits, none_over)
]

truncate-asks :
    (cap : Option ℕ) (v : List Level)
    → reverse (truncate_to cap v) ≡ BTree.truncate_to ask cap (reverse v)
truncate-asks none v = unfold truncate_to in sym (truncate-none ask (reverse v))
truncate-asks (some n) v = elim (Bool-cases (ltb n (length v))) [
  | inl more ↦
      let kept : length v - (length v - n) ≡ n = ground arith in
      unfold truncate_to in rw (truncate_ask, more, reverse-drop, kept)
  | inr fits ↦
      unfold truncate_to in
      rw (truncate_ask, fits) (sym (take_all n (reverse v) (ground (arith, length-reverse v))))
]

set_side-bids :
    (cap : Option ℕ) (p q : ℤ) (v : List Level)
    → truncate_to cap (set_entry bid p q v) ≡ BTree.truncate_to bid cap (BTree.set_entry p q v)
set_side-bids cap p q v =
    truncate-bids cap (set_entry bid p q v) ∙ ap (BTree.truncate_to bid cap) (set_entry_bid p q v)

set_side-asks :
    (cap : Option ℕ) (p q : ℤ) (v : List Level)
    → IsValidSide cap (reverse v)
    → reverse (truncate_to cap (set_entry ask p q v))
      ≡ BTree.truncate_to ask cap (BTree.set_entry p q (reverse v))
set_side-asks cap p q v h =
    truncate-asks cap (set_entry ask p q v)
    ∙ ap (BTree.truncate_to ask cap) (set_entry_ask p q v h.sorted)

pub record Same (b : BTreeBook) (l : LadderBook) : Type 0 where
  pub same : b ≡ to_btree l
  pub valid : IsValid (to_btree l)

set_level-to_btree :
    (side : Side) (p q : ℤ) (l : LadderBook)
    → IsValid (to_btree l)
    → (BTree.set_level side p q (to_btree l)).0 ≡ to_btree (set_level side p q l).0
unfolding set_level BTree.set_level
set_level-to_btree bid p q l v =
    ap (λ m. record (to_btree l) { bids = m }) (sym (set_side-bids l.max_depth p q l.bids))
set_level-to_btree ask p q l v =
    ap (λ m. record (to_btree l) { asks = m })
      (sym (set_side-asks l.max_depth p q l.asks v.valid_asks))

-- The best level of a side, in both representations.
best-to_btree :
    (side : Side) (l : LadderBook) → BTree.best side (to_btree l) ≡ last (side_levels side l)
best-to_btree bid l = refl
best-to_btree ask l = first-reverse l.asks

set_level-told :
    (side : Side) (p q : ℤ) (l : LadderBook)
    → IsValid (to_btree l)
    → (BTree.set_level side p q (to_btree l)).1 ≡ (set_level side p q l).1
unfolding set_level BTree.set_level
set_level-told side p q l v =
    ap₂ (λ before after. not (same_level before after)) (best-to_btree side l)
      (ap (BTree.best side) (set_level-to_btree side p q l v)
        ∙ best-to_btree side (set_level side p q l).0)

set_level-Same :
    (side : Side) (p q : ℤ) (b : BTreeBook) (l : LadderBook)
    → Same b l
    → Same (BTree.set_level side p q b).0 (set_level side p q l).0
      × ((BTree.set_level side p q b).1 ≡ (set_level side p q l).1)
set_level-Same side p q b l h =
    let moved : (BTree.set_level side p q b).0 ≡ to_btree (set_level side p q l).0 =
      ap (λ x. (BTree.set_level side p q x).0) h.same ∙ set_level-to_btree side p q l h.valid in
    (
      record {
        same = moved;
        valid =
            subst IsValid (set_level-to_btree side p q l h.valid)
              (set_level-IsValid side p q (to_btree l) h.valid);
      },
      ap (λ x. (BTree.set_level side p q x).1) h.same ∙ set_level-told side p q l h.valid,
    )

clear_levels-Same :
    (b : BTreeBook) (l : LadderBook) → Same b l → Same (BTree.clear_levels b) (clear_levels l)
clear_levels-Same b l h = record {
  same = ap BTree.clear_levels h.same;
  valid = clear_levels-IsValid (to_btree l) h.valid;
}

cancel : (m n d : ℕ) → m + d ≡ n + d → m ≡ n
cancel m n d h = omega arith

-- The two books answer an event alike, and stay the same book.
pub apply-to_btree :
    (ev : Event) (l : LadderBook)
    → IsValid (to_btree l)
    → BTree.apply ev (to_btree l) ≡ (to_btree (apply ev l).0, (apply ev l).1)
unfolding apply BTree.apply
apply-to_btree ev l v =
    let agree : Agree Same l.dropped l.dropped _ _ =
      apply_common-agrees BTree.level_ops level_ops Same set_level-Same clear_levels-Same
        (to_btree l) l l.dropped l.dropped (record { same = refl; valid = v }) ev l.state in
    let same_dropped = cancel _ _ l.dropped agree.dropped in
    λ i. (
      record (agree.levels.same i) { state = agree.state i; dropped = same_dropped i },
      agree.answer i,
    )

pub run-to_btree :
    (evs : List Event) (l : LadderBook)
    → IsValid (to_btree l)
    → run BTree.l2_book evs (to_btree l) ≡ (to_btree (run l2_book evs l).0, (run l2_book evs l).1)
unfolding run
run-to_btree [] l v = refl
run-to_btree (ev ∷ evs) l v =
    let step = apply-to_btree ev l v in
    let valid : IsValid (to_btree (apply ev l).0) =
      subst IsValid (ap (λ x. x.0) step) (apply-IsValid ev (to_btree l) v) in
    let later = run-to_btree evs (apply ev l).0 valid in
    ap (λ x. let (b'', rs) = run BTree.l2_book evs x.0 in (b'', x.1 ∷ rs)) step
    ∙ ap (λ y. (y.0, (apply ev l).1 ∷ y.1)) later

-- A ladder book and the ordered-map book that it stands for read alike.
pub to_btree-Indistinguishable :
    (l : LadderBook) → Indistinguishable BTree.l2_book l2_book (to_btree l) l
unfolding state_digest BTree.state_digest
to_btree-Indistinguishable l = record {
  best_bid = refl;
  best_ask = first-reverse l.asks;
  depth = elim [ bid ↦ refl | ask ↦ length-reverse l.asks ];
  top_n = elim [ bid ↦ λ n. refl | ask ↦ λ n. refl ];
  is_synced = refl;
  dropped_unsynced = refl;
  state_digest = refl;
}

make-to_btree : (cap : Option ℕ) → to_btree (make cap) ≡ BTree.make cap
make-to_btree none = refl
make-to_btree (some n) = refl

-- The two representations agree: from new books with the same depth cap, every stream of events
-- gets the same answers from both, and leaves books that no reading method of `L2Book` can tell
-- apart (best levels, depths, top levels, sync flag, drop count and digest).
pub ladder-eq-btree :
    (cap : Option ℕ) (evs : List Event)
    → ((run BTree.l2_book evs (BTree.make cap)).1 ≡ (run l2_book evs (make cap)).1)
      × Indistinguishable BTree.l2_book l2_book
          (run BTree.l2_book evs (BTree.make cap)).0
          (run l2_book evs (make cap)).0
ladder-eq-btree cap evs =
    let e : run BTree.l2_book evs (BTree.make cap)
        ≡ (to_btree (run l2_book evs (make cap)).0, (run l2_book evs (make cap)).1) =
      ap (run BTree.l2_book evs) (sym (make-to_btree cap))
      ∙ run-to_btree evs (make cap) (subst IsValid (sym (make-to_btree cap)) (make-IsValid cap)) in
    (
      ap (λ x. x.1) e,
      subst (λ x. Indistinguishable BTree.l2_book l2_book x (run l2_book evs (make cap)).0)
          (sym (ap (λ x. x.0) e)) (to_btree-Indistinguishable (run l2_book evs (make cap)).0),
    )
