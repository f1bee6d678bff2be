-- ===== src/Lob/BookSet/Digest.antt =====
-- The combined digest does not depend on the order in which the hash map keeps its entries.
use flashbook.Prelude.{ℕ, ◌≡◌, ◌≢◌, refl, ap, ap₂, sym, ◌∙◌, arith, List, [], ◌∷◌, All, ◌>>=◌}
use flashbook.Lob.Book.{L2Book, fnv_offset}
use flashbook.Lob.BookSet.{
  Books, BookSet, ids, lookup, insert_id, sort, fold_digests, combined_digest,
}
use mathlib.Core.List.{Permᴰ}
use mathlib.Core.Path.{fun_ext, subst}

-- No instrument has two entries.
abbrev pub HasDistinctIds : {B : Type 0} → Books B → Type 0
HasDistinctIds [] = Unit
HasDistinctIds ((id, b) ∷ m) = All (λ e. id ≢ e.0) m × HasDistinctIds m

module _ {B : Type 0} where
  All-perm : (P : ℕ × B → Type 0) (m n : Books B) → Permᴰ m n → All P m → All P n
  All-perm P m n Permᴰ.nil a = a
  All-perm P m n (Permᴰ.cons e p) a = (subst P e a.0, All-perm P _ _ p a.1)
  All-perm P m n (Permᴰ.swap e f) a = (subst P f a.1.0, (subst P e a.0, a.1.1))
  All-perm P m n (Permᴰ.trans p q) a = All-perm P _ n q (All-perm P m _ p a)

  distinct_perm : (m n : Books B) → Permᴰ m n → HasDistinctIds m → HasDistinctIds n
  distinct_perm m n Permᴰ.nil d = d
  distinct_perm m n (Permᴰ.cons {a = a} {b = b} {l₁ = l₁} {l₂ = l₂} e p) d =
      subst (λ x. HasDistinctIds (x ∷ l₂)) e
        (All-perm (λ x. a.0 ≢ x.0) l₁ l₂ p d.0, distinct_perm l₁ l₂ p d.1)
  distinct_perm m n (Permᴰ.swap {a = a} {b = b} {b' = b'} {l = l} e f) d =
      subst (λ x. HasDistinctIds (x ∷ b' ∷ l)) f
        (subst (λ x. HasDistinctIds (b ∷ x ∷ l)) e ((λ q. d.0.0 (sym q), d.1.0), (d.0.1, d.1.1)))
  distinct_perm m n (Permᴰ.trans {l₂ = l₂} p q) d = distinct_perm l₂ n q (distinct_perm m l₂ p d)

  lookup_swap :
      (id : ℕ) (x y : ℕ × B) (l : Books B)
      → x.0 ≢ y.0
      → lookup id (x ∷ y ∷ l) ≡ lookup id (y ∷ x ∷ l)
  unfolding lookup
  lookup_swap id x y l h = ground arith

  lookup_perm : (id : ℕ) (m n : Books B) → Permᴰ m n → HasDistinctIds m → lookup id m ≡ lookup id n
  lookup_perm id m n Permᴰ.nil d = refl
  lookup_perm id m n (Permᴰ.cons {a = a} {b = b} {l₁ = l₁} {l₂ = l₂} e p) d =
      lookup-cons (lookup_perm id l₁ l₂ p d.1) ∙ ap (λ x. lookup id (x ∷ l₂)) e
    where
      lookup-cons : lookup id l₁ ≡ lookup id l₂ → lookup id (a ∷ l₁) ≡ lookup id (a ∷ l₂)
      lookup-cons h = unfold lookup in rw h
  lookup_perm id m n (Permᴰ.swap {a = a} {b = b} {l = l} e f) d =
      lookup_swap id a b l d.0.0 ∙ ap₂ (λ x y. lookup id (x ∷ y ∷ l)) f e
  lookup_perm id m n (Permᴰ.trans {l₂ = l₂} p q) d =
      lookup_perm id m l₂ p d ∙ lookup_perm id l₂ n q (distinct_perm m l₂ p d)

insert_id_comm : (x y : ℕ) (l : List ℕ) → insert_id x (insert_id y l) ≡ insert_id y (insert_id x l)
unfolding insert_id
insert_id_comm x y [] = ground arith
insert_id_comm x y (k ∷ l) = ground (arith, insert_id_comm x y l)

module _ {B : Type 0} where
  sort_perm : (m n : Books B) → Permᴰ m n → sort (ids m) ≡ sort (ids n)
  unfolding sort
  sort_perm m n Permᴰ.nil = refl
  sort_perm m n (Permᴰ.cons {l₁ = l₁} {l₂ = l₂} e p) =
      ap₂ (λ x. insert_id x.0) e (sort_perm l₁ l₂ p)
  sort_perm m n (Permᴰ.swap {a = a} {b = b} {l = l} e f) =
      insert_id_comm a.0 b.0 (sort (ids l))
      ∙ ap₂ (λ x y. insert_id x.0 (insert_id y.0 (sort (ids l)))) f e
  sort_perm m n (Permᴰ.trans {l₂ = l₂} p q) = sort_perm m l₂ p ∙ sort_perm l₂ n q

module _ {B : Type 0} (book : L2Book B) where
  fold_digests-lookup :
      (m n : Books B)
      → ((id : ℕ) → lookup id m ≡ lookup id n)
      → (ks : List ℕ) (h : ℕ) → fold_digests book m ks h ≡ fold_digests book n ks h
  unfolding fold_digests
  fold_digests-lookup m n e [] h = refl
  fold_digests-lookup m n e (k ∷ ks) h =
      ap₂ ◌>>=◌ (e k) (fun_ext (λ b. fold_digests-lookup m n e ks _))

-- The combined digest of a set of books in which no instrument has two entries is the same for
-- every order of the hash map's entries.
pub combined_digest_perm :
    {B : Type 0} (book : L2Book B) (s : BookSet B) (n : Books B)
    → HasDistinctIds s.books
    → Permᴰ s.books n
    → combined_digest book s ≡ combined_digest book (record s { books = n })
unfolding combined_digest
combined_digest_perm book s n d p =
    fold_digests-lookup book s.books n (λ id. lookup_perm id s.books n p d) _ _
    ∙ ap (λ ks. fold_digests book n ks fnv_offset) (sort_perm s.books n p)
