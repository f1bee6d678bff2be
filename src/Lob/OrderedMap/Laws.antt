-- ===== src/Lob/OrderedMap/Laws.antt =====
-- What the ordered map's operations keep, and what a reader finds after them.
use flashbook.Prelude.{
  ℕ, zero, suc, ◌≡◌, refl, arith, none, some, List, [], ◌∷◌, All, take, drop, if◌then◌else◌,
}
use flashbook.Prelude.Int.{ℤ, eqb_ℤ, ◌<ℤ◌, cmp-eq}
use flashbook.Lob.OrderedMap.{OrderedMap, insert, remove, get}

-- Every key of the map is above `k`.
abbrev pub Above : ℤ → OrderedMap → Type 0
Above k m = All (λ e. k <ℤ e.0) m

abbrev pub IsSorted : OrderedMap → Type 0
IsSorted [] = Unit
IsSorted ((k, v) ∷ m) = Above k m × IsSorted m

Above-trans : (j k : ℤ) (m : OrderedMap) → j <ℤ k → Above k m → Above j m
Above-trans j k [] h a = tt
Above-trans j k ((i, w) ∷ m) h a = (omega arith, Above-trans j k m h a.1)

pub All-insert {ℓ} :
    (P : ℤ × ℤ → Type ℓ) (k v : ℤ) (m : OrderedMap) → P (k, v) → All P m → All P (insert k v m)
unfolding insert
All-insert P k v [] p a = (p, tt)
All-insert P k v ((j, w) ∷ m) p a = ground (arith, All-insert P k v m)

pub All-remove {ℓ} : (P : ℤ × ℤ → Type ℓ) (k : ℤ) (m : OrderedMap) → All P m → All P (remove k m)
unfolding remove
All-remove P k [] a = tt
All-remove P k ((j, w) ∷ m) a = ground (arith, All-remove P k m)

pub insert-IsSorted : (k v : ℤ) (m : OrderedMap) → IsSorted m → IsSorted (insert k v m)
unfolding insert
insert-IsSorted k v [] s = (tt, tt)
insert-IsSorted k v ((j, w) ∷ m) s =
    ground (
      arith,
      insert-IsSorted k v m,
      Above-trans k j m,
      cmp-eq k j,
      All-insert (λ e. j <ℤ e.0) k v m,
    )

pub remove-IsSorted : (k : ℤ) (m : OrderedMap) → IsSorted m → IsSorted (remove k m)
unfolding remove
remove-IsSorted k [] s = tt
remove-IsSorted k ((j, w) ∷ m) s =
    ground (arith, remove-IsSorted k m, All-remove (λ e. j <ℤ e.0) k m)

-- A lookup after an insertion.
pub get-insert :
    (k j v : ℤ) (m : OrderedMap)
    → IsSorted m
    → get j (insert k v m) ≡ (if eqb_ℤ k j then some v else get j m)
unfolding get insert
get-insert k j v [] s = ground arith
get-insert k j v ((i, w) ∷ m) s = ground (arith, get-insert k j v m)

get-Above : (k : ℤ) (m : OrderedMap) → Above k m → get k m ≡ none
unfolding get
get-Above k [] a = refl
get-Above k ((j, w) ∷ m) a = ground arith

-- A lookup after a removal.
pub get-remove :
    (k j : ℤ) (m : OrderedMap)
    → IsSorted m
    → get j (remove k m) ≡ (if eqb_ℤ k j then none else get j m)
unfolding get remove
get-remove k j [] s = ground arith
get-remove k j ((i, w) ∷ m) s =
    ground (
      arith,
      get-remove k j m,
      get-Above j m,
      Above-trans j i m,
      cmp-eq k j,
      cmp-eq k i,
      cmp-eq i j,
    )

pub All-drop {ℓ} : {A : Type 0} (P : A → Type ℓ) (n : ℕ) (m : List A) → All P m → All P (drop n m)
All-drop P zero m a = a
All-drop P (suc n) [] a = a
All-drop P (suc n) (x ∷ m) a = All-drop P n m a.1

pub All-take {ℓ} : {A : Type 0} (P : A → Type ℓ) (n : ℕ) (m : List A) → All P m → All P (take n m)
All-take P zero m a = tt
All-take P (suc n) [] a = tt
All-take P (suc n) (x ∷ m) a = (a.0, All-take P n m a.1)

pub drop-IsSorted : (n : ℕ) (m : OrderedMap) → IsSorted m → IsSorted (drop n m)
drop-IsSorted zero m s = s
drop-IsSorted (suc n) [] s = s
drop-IsSorted (suc n) (x ∷ m) s = drop-IsSorted n m s.1

pub take-IsSorted : (n : ℕ) (m : OrderedMap) → IsSorted m → IsSorted (take n m)
take-IsSorted zero m s = tt
take-IsSorted (suc n) [] s = tt
take-IsSorted (suc n) ((k, v) ∷ m) s = (All-take (λ e. k <ℤ e.0) n m s.0, take-IsSorted n m s.1)
