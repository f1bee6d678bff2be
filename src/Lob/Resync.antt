-- ===== src/Lob/Resync.antt =====
-- Resynchronisation: what a book shows after a snapshot begins does not depend on what came before
-- (crates/lob/src/book.rs, by way of the ordered-map book).
use flashbook.Prelude.{ℕ, ◌≡◌, refl, ap, ap₂, sym, ◌∙◌, Option, List, [], ◌∷◌, ok}
use flashbook.Prelude.Int.{ℤ}
use flashbook.Proto.Event.{Event, Side, bid, ask, event_kind, snap_begin}
use flashbook.Lob.OrderedMap.{OrderedMap}
use flashbook.Lob.Book.{apply_common, unsynced, filling, snapshot_started}
use flashbook.Lob.Book.Rules.{Agree, apply_common-agrees}
use flashbook.Lob.Book.Steps.{apply_common_begin}
use flashbook.Lob.Run.{run}
use flashbook.Lob.BTree.{
  BTreeBook, set_level, clear_levels, apply, l2_book, level_ops, state_digest,
}
use mathlib.Core.Path.{subst}

-- The part of a book that the level operations read and write.
abbrev Content : Type 0
Content = OrderedMap × OrderedMap × Option ℕ

abbrev content : BTreeBook → Content
content b = (b.bids, b.asks, b.max_depth)

abbrev of_content : Content → BTreeBook
of_content (bids, asks, cap) = record {
  bids = bids;
  asks = asks;
  state = unsynced;
  dropped = 0;
  max_depth = cap;
}

abbrev SameContent : BTreeBook → BTreeBook → Type 0
SameContent a b = content a ≡ content b

content-set_level :
    (side : Side) (p q : ℤ) (b : BTreeBook)
    → content (set_level side p q b).0 ≡ content (set_level side p q (of_content (content b))).0
unfolding set_level
content-set_level bid p q b = refl
content-set_level ask p q b = refl

told-set_level :
    (side : Side) (p q : ℤ) (b : BTreeBook)
    → (set_level side p q b).1 ≡ (set_level side p q (of_content (content b))).1
unfolding set_level
told-set_level bid p q b = refl
told-set_level ask p q b = refl

set_level-SameContent :
    (side : Side) (p q : ℤ) (a b : BTreeBook)
    → SameContent a b
    → SameContent (set_level side p q a).0 (set_level side p q b).0
      × ((set_level side p q a).1 ≡ (set_level side p q b).1)
set_level-SameContent side p q a b h = (
  content-set_level side p q a
      ∙ ap (λ c. content (set_level side p q (of_content c)).0) h
      ∙ sym (content-set_level side p q b),
  told-set_level side p q a
      ∙ ap (λ c. (set_level side p q (of_content c)).1) h
      ∙ sym (told-set_level side p q b),
)

clear_levels-SameContent :
    (a b : BTreeBook) → SameContent a b → SameContent (clear_levels a) (clear_levels b)
clear_levels-SameContent a b h = ap (λ c. ([], [], c.2)) h

-- Two books that may differ only in how many events they have dropped.
record Twins (a b : BTreeBook) : Type 0 where
  same : SameContent a b
  state : a.state ≡ b.state

apply-agrees :
    (ev : Event) (a b : BTreeBook)
    → Twins a b
    → Twins (apply ev a).0 (apply ev b).0 × ((apply ev a).1 ≡ (apply ev b).1)
unfolding apply
apply-agrees ev a b h =
    let agree : Agree SameContent a.dropped b.dropped
        (apply_common level_ops ev (record { levels = a; state = a.state; dropped = a.dropped }))
        (apply_common level_ops ev (record { levels = b; state = b.state; dropped = b.dropped })) =
      subst
        (λ s.
          Agree SameContent a.dropped b.dropped
            (apply_common level_ops ev
              (record { levels = a; state = a.state; dropped = a.dropped }))
            (apply_common level_ops ev (record { levels = b; state = s; dropped = b.dropped })))
        h.state
        (apply_common-agrees level_ops level_ops SameContent set_level-SameContent
          clear_levels-SameContent a b a.dropped b.dropped h.same ev a.state) in
    (record { same = agree.levels; state = agree.state }, agree.answer)

run-Twins :
    (evs : List Event) (a b : BTreeBook)
    → Twins a b
    → Twins (run l2_book evs a).0 (run l2_book evs b).0
      × ((run l2_book evs a).1 ≡ (run l2_book evs b).1)
unfolding run
run-Twins [] a b h = (h, refl)
run-Twins (ev ∷ evs) a b h =
    let (twins, answer) = apply-agrees ev a b h in
    let (later, answers) = run-Twins evs (apply ev a).0 (apply ev b).0 twins in
    (later, ap₂ ◌∷◌ answer answers)

apply_begin :
    (ev : Event) (b : BTreeBook)
    → event_kind ev ≡ ok snap_begin
    → apply ev b ≡ (record (clear_levels b) { state = filling }, snapshot_started)
unfolding apply
apply_begin ev b e =
    ap (λ x. (record x.0.levels { state = x.0.state; dropped = x.0.dropped }, x.1))
      (apply_common_begin level_ops ev (record { levels = b; state = b.state; dropped = b.dropped })
        e)

-- After a snapshot begins, two books with one depth cap are twins whatever they held.
begin-Twins :
    (ev : Event) (a b : BTreeBook)
    → event_kind ev ≡ ok snap_begin
    → a.max_depth ≡ b.max_depth
    → Twins (apply ev a).0 (apply ev b).0 × ((apply ev a).1 ≡ (apply ev b).1)
begin-Twins ev a b e h =
    rw (apply_begin ev a e, apply_begin ev b e)
      (record { same = ap (λ cap. ([], [], cap)) h; state = refl }, refl)

-- From the begin of a snapshot on, two books with the same depth cap hold the same levels, have
-- the same sync state and digest, and answer every event alike, whatever they held before.
pub resync :
    (ev : Event) (evs : List Event) (a b : BTreeBook)
    → event_kind ev ≡ ok snap_begin
    → a.max_depth ≡ b.max_depth
    → ((run l2_book (ev ∷ evs) a).0.bids ≡ (run l2_book (ev ∷ evs) b).0.bids)
      × ((run l2_book (ev ∷ evs) a).0.asks ≡ (run l2_book (ev ∷ evs) b).0.asks)
      × ((run l2_book (ev ∷ evs) a).0.state ≡ (run l2_book (ev ∷ evs) b).0.state)
      × (l2_book.state_digest (run l2_book (ev ∷ evs) a).0
          ≡ l2_book.state_digest (run l2_book (ev ∷ evs) b).0)
      × ((run l2_book (ev ∷ evs) a).1 ≡ (run l2_book (ev ∷ evs) b).1)
unfolding run state_digest
resync ev evs a b e h =
    let (twins, answer) = begin-Twins ev a b e h in
    let (later, answers) = run-Twins evs (apply ev a).0 (apply ev b).0 twins in
    (
      ap (λ c. c.0) later.same,
      ap (λ c. c.1) later.same,
      later.state,
      ap₂ (λ c s. l2_book.state_digest (record (of_content c) { state = s })) later.same
          later.state,
      ap₂ ◌∷◌ answer answers,
    )
