-- ===== src/Lob/BookSet.antt =====
-- crates/lob/src/lib.rs: the books of several instruments, over any representation.
pub mod Routing
pub mod Digest
use flashbook.Prelude.{
  ℕ, zero, suc, Option, none, some, List, [], ◌∷◌, map, ◌==◌, leb, if◌then◌else◌, ◌>>=◌,
}
use flashbook.Proto.Event.{Event}
use flashbook.Prelude.Bytes.{le_bytes}
use flashbook.Lob.Book.{Apply, L2Book, fnv_offset, fnv_write}

-- The `HashMap<u32, B>`: its entries in some order. Nothing below depends on the order.
abbrev pub Books : Type 0 → Type 0
Books B = List (ℕ × B)

pub record BookSet (B : Type 0) : Type 0 where
  pub books : Books B
  pub default_max_depth : Option ℕ
  pub make : Option ℕ → B

-- `BookSet::new`
abbrev pub new : {B : Type 0} → Option ℕ → (Option ℕ → B) → BookSet B
new depth make = record { books = []; default_max_depth = depth; make = make }

module _ {B : Type 0} where
  unfoldable pub lookup : ℕ → Books B → Option B
  lookup id [] = none
  lookup id ((j, b) ∷ m) = if id == j then some b else lookup id m

  -- `BookSet::get`
  abbrev pub get : ℕ → BookSet B → Option B
  get id s = lookup id s.books

  -- `len` and `is_empty`
  abbrev pub ids : Books B → List ℕ
  ids m = map (λ e. e.0) m

-- `entry(id).or_insert_with(fresh)`, then `f` on the book in it.
module _ {B R : Type 0} where
  unfoldable pub at_entry : ℕ → B → (B → B × R) → Books B → Books B × R
  at_entry id fresh f [] = let (b, r) = f fresh in ((id, b) ∷ [], r)
  at_entry id fresh f ((j, b) ∷ m) =
      let (m', r) = at_entry id fresh f m in
      let (b', r') = f b in if id == j then ((j, b') ∷ m, r') else ((j, b) ∷ m', r)

-- `ids.sort_unstable()`
insert_id : ℕ → List ℕ → List ℕ
insert_id n [] = n ∷ []
insert_id n (k ∷ ks) = let rest = insert_id n ks in if leb n k then n ∷ k ∷ ks else k ∷ rest

sort : List ℕ → List ℕ
unfolding insert_id
sort [] = []
sort (n ∷ ns) = insert_id n (sort ns)

module _ {B : Type 0} (book : L2Book B) where
  -- `BookSet::apply`
  unfoldable pub apply : Event → BookSet B → BookSet B × Apply
  unfolding at_entry
  apply ev s =
      let (m, r) = at_entry ev.instrument (s.make s.default_max_depth) (book.apply ev) s.books in
      (record s { books = m }, r)

  -- The loop over the sorted ids; `none` is the panic of `self.books[&id]` on a missing id.
  fold_digests : Books B → List ℕ → ℕ → Option ℕ
  fold_digests m [] h = some h
  fold_digests m (id ∷ rest) h = do
    b ← lookup id m
    fold_digests m rest (fnv_write (fnv_write h (le_bytes 4 id)) (le_bytes 8 (book.state_digest b)))

  -- `BookSet::combined_digest`
  unfoldable pub combined_digest : BookSet B → Option ℕ
  unfolding sort fold_digests lookup
  combined_digest s = fold_digests s.books (sort (ids s.books)) fnv_offset
