-- ===== src/Lob/OrderedMap.antt =====
-- The `BTreeMap<i64, i64>` that crates/lob/src/btree.rs keeps for each side: its entries in
-- ascending order of the key.
pub mod Laws
use flashbook.Prelude.{ℕ, List, [], ◌∷◌, Ordering, first, last, Option, none, some}
use flashbook.Prelude.Int.{ℤ, cmp}

abbrev pub OrderedMap : Type 0
OrderedMap = List (ℤ × ℤ)

-- `map.insert(k, v)`
unfoldable pub insert : ℤ → ℤ → OrderedMap → OrderedMap
insert k v [] = (k, v) ∷ []
insert k v ((j, w) ∷ m) =
    let rest = insert k v m in
    elim (cmp k j) [
      | Ordering.lt ↦ (k, v) ∷ (j, w) ∷ m
      | Ordering.eq ↦ (k, v) ∷ m
      | Ordering.gt ↦ (j, w) ∷ rest
    ]

-- `map.remove(&k)`
unfoldable pub remove : ℤ → OrderedMap → OrderedMap
remove k [] = []
remove k ((j, w) ∷ m) =
    let rest = remove k m in
    elim (cmp k j) [ Ordering.lt ↦ (j, w) ∷ m | Ordering.eq ↦ m | Ordering.gt ↦ (j, w) ∷ rest ]

-- `map.get(&k)`
unfoldable pub get : ℤ → OrderedMap → Option ℤ
get k [] = none
get k ((j, w) ∷ m) =
    let rest = get k m in
    elim (cmp k j) [ Ordering.lt ↦ none | Ordering.eq ↦ some w | Ordering.gt ↦ rest ]

-- `map.first_key_value()`, `map.last_key_value()`
abbrev pub first_key_value : OrderedMap → Option (ℤ × ℤ)
first_key_value m = first m

abbrev pub last_key_value : OrderedMap → Option (ℤ × ℤ)
last_key_value m = last m

-- `map.pop_first()`, `map.pop_last()`
abbrev pub pop_first : OrderedMap → OrderedMap
pop_first [] = []
pop_first (e ∷ m) = m

abbrev pub pop_last : OrderedMap → OrderedMap
pop_last [] = []
pop_last (e ∷ []) = []
pop_last (e ∷ e' ∷ m) = e ∷ pop_last (e' ∷ m)
