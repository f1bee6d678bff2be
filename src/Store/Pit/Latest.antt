-- ===== src/Store/Pit/Latest.antt =====
-- crates/store/src/pit.rs: the order of an index, and what `latest_at` finds in it.
use flashbook.Prelude.{
  ℕ, zero, suc, ◌≤◌, ◌≡◌, refl, sym, ap, ◌∙◌, arith, true, false, Option, none, some, List, [], ◌∷◌,
  ◌==◌, if◌then◌else◌, Bool-cases, inl, inr,
}
use flashbook.Store.Pit.{
  SnapEntry, key, key_le, insert_by_key, sort_by_key, is_sorted_by_key, partition_point,
  checked_pred, entry_at, of_instrument, latest_at,
}
use mathlib.Core.List.{Memᴰ}
use mathlib.Core.List.Memᴰ
use mathlib.Core.List.Memᴰ.{head, tail, cases_cons}

-- The order of the keys, which is total.
key_le_trans : (a b c : ℕ × ℕ) → key_le a b ≡ true → key_le b c ≡ true → key_le a c ≡ true
key_le_trans a b c h g = ground arith

key_le_total : (a b : ℕ × ℕ) → key_le a b ≡ false → key_le b a ≡ true
key_le_total a b h = ground arith

key_le_refl : (a : ℕ × ℕ) → key_le a a ≡ true
key_le_refl a = ground arith

-- The first entry of a sorted index against the others.
sorted_tail :
    (x : SnapEntry) (xs : List SnapEntry)
    → is_sorted_by_key (x ∷ xs) ≡ true
    → is_sorted_by_key xs ≡ true
unfolding is_sorted_by_key
sorted_tail x [] h = refl
sorted_tail x (y ∷ xs) h = ground (arith, h)

sorted_first :
    (x : SnapEntry) (xs : List SnapEntry) (e : SnapEntry)
    → is_sorted_by_key (x ∷ xs) ≡ true
    → Memᴰ e xs
    → key_le (key x) (key e) ≡ true
unfolding is_sorted_by_key
sorted_first x [] e h m = absurd (Memᴰ.not-nil m)
sorted_first x (y ∷ xs) e h m =
    let next : key_le (key x) (key y) ≡ true = ground (arith, h) in
    elim (cases_cons m) [
      | inl same ↦ ap (λ (z : SnapEntry). key_le (key x) (key z)) same ∙ next
      | inr m' ↦
          key_le_trans (key x) (key y) (key e) next
            (sorted_first y xs e (sorted_tail x (y ∷ xs) h) m')
    ]

sorted_one : (e : SnapEntry) → is_sorted_by_key (e ∷ []) ≡ true
unfolding is_sorted_by_key
sorted_one e = refl

sorted_cons :
    (x y : SnapEntry) (l : List SnapEntry)
    → key_le (key x) (key y) ≡ true
    → is_sorted_by_key (y ∷ l) ≡ true
    → is_sorted_by_key (x ∷ y ∷ l) ≡ true
unfolding is_sorted_by_key
sorted_cons x y l h g = rw h g

insert_sorted :
    (e : SnapEntry) (xs : List SnapEntry)
    → is_sorted_by_key xs ≡ true
    → is_sorted_by_key (insert_by_key e xs) ≡ true
unfolding insert_by_key
insert_sorted e [] h = sorted_one e
insert_sorted e (x ∷ []) h = elim (Bool-cases (key_le (key e) (key x))) [
  | inl before ↦ rw before (sorted_cons e x [] before h)
  | inr behind ↦ rw behind (sorted_cons x e [] (key_le_total (key e) (key x) behind) (sorted_one e))
]
insert_sorted e (x ∷ y ∷ xs) h =
    let rest = insert_sorted e (y ∷ xs) (sorted_tail x (y ∷ xs) h) in
    elim (Bool-cases (key_le (key e) (key x))) [
      | inl before ↦ rw before (sorted_cons e x (y ∷ xs) before h)
      | inr behind ↦ elim (Bool-cases (key_le (key e) (key y))) [
        | inl first ↦
            rw (behind, first)
              (sorted_cons x e (y ∷ xs) (key_le_total (key e) (key x) behind)
                (sorted_cons e y xs first (sorted_tail x (y ∷ xs) h)))
        | inr later ↦
            rw (behind, later)
              (sorted_cons x y (insert_by_key e xs) (sorted_first x (y ∷ xs) y h (head refl))
                (chosen later rest))
      ]
    ]
  where
    chosen :
        key_le (key e) (key y) ≡ false
        → is_sorted_by_key (insert_by_key e (y ∷ xs)) ≡ true
        → is_sorted_by_key (y ∷ insert_by_key e xs) ≡ true
    chosen later rest =
        sym (ap (λ b. is_sorted_by_key (if b then e ∷ y ∷ xs else y ∷ insert_by_key e xs)) later)
        ∙ rest

pub sort_sorted : (es : List SnapEntry) → is_sorted_by_key (sort_by_key es) ≡ true
unfolding sort_by_key is_sorted_by_key
sort_sorted [] = refl
sort_sorted (e ∷ es) = insert_sorted e (sort_by_key es) (sort_sorted es)

-- The entry behind which the search stops.
abbrev found : ℕ × ℕ → List SnapEntry → Option SnapEntry
found k es = entry_at es (checked_pred (partition_point k es))

-- What it is to be found: an entry with a key up to `k`, and no earlier than `x`.
abbrev IsFound : ℕ × ℕ → SnapEntry → List SnapEntry → Type 0
IsFound k x es =
    (e : SnapEntry) × (found k es ≡ some e)
    × Memᴰ e es
    × (key_le (key e) k ≡ true)
    × (key_le (key x) (key e) ≡ true)

no_entries : (k : ℕ × ℕ) → partition_point k [] ≡ 0
unfolding partition_point
no_entries k = refl

found_none :
    (k : ℕ × ℕ) (y : SnapEntry) (ys : List SnapEntry)
    → key_le (key y) k ≡ true
    → partition_point k ys ≡ 0
    → found k (y ∷ ys) ≡ some y
unfolding partition_point
found_none k y ys h e = rw (h, e) refl

found_some :
    (k : ℕ × ℕ) (y : SnapEntry) (ys : List SnapEntry) (p : ℕ)
    → key_le (key y) k ≡ true
    → partition_point k ys ≡ suc p
    → found k (y ∷ ys) ≡ found k ys
unfolding partition_point
found_some k y ys p h e = rw (h, e) refl

IsFound-cons :
    (k : ℕ × ℕ) (x y : SnapEntry) (ys : List SnapEntry) (p : ℕ)
    → key_le (key y) k ≡ true
    → partition_point k ys ≡ suc p
    → IsFound k x ys
    → IsFound k x (y ∷ ys)
IsFound-cons k x y ys p h d (e, f, m, below, above) =
    (e, found_some k y ys p h d ∙ f, tail m, below, above)

IsFound-behind :
    (c : ℕ) (k : ℕ × ℕ) (x y : SnapEntry) (ys : List SnapEntry)
    → partition_point k ys ≡ c
    → key_le (key y) k ≡ true
    → IsFound k x ys
    → IsFound k x (y ∷ ys)
IsFound-behind zero k x y ys e h (r, f, _, _, _) =
    let d : some r ≡ none = sym f ∙ ap (λ n. entry_at ys (checked_pred n)) e in
    absurd (ground (arith, d))
IsFound-behind (suc p) k x y ys e h r = IsFound-cons k x y ys p h e r

IsFound-first :
    (k : ℕ × ℕ) (x y z : SnapEntry) (zs : List SnapEntry)
    → x ≡ y
    → key_le (key x) k ≡ true
    → key_le (key y) (key z) ≡ true
    → (key_le (key z) k ≡ true → IsFound k z (z ∷ zs))
    → IsFound k x (y ∷ z ∷ zs)
unfolding partition_point
IsFound-first k x y z zs same h next rest =
    let up_to : key_le (key y) k ≡ true = ap (λ (e : SnapEntry). key_le (key e) k) (sym same) ∙ h in
    let le_y : key_le (key x) (key y) ≡ true =
      ap (λ (e : SnapEntry). key_le (key x) (key e)) (sym same) ∙ key_le_refl (key x) in
    elim (Bool-cases (key_le (key z) k)) [
      | inl more ↦
          let (e, f, m, below, above) = rest more in
          (
            e,
            found_some k y (z ∷ zs) (partition_point k zs) up_to (rw more refl) ∙ f,
            tail m,
            below,
            key_le_trans (key x) (key y) (key e) le_y
                (key_le_trans (key y) (key z) (key e) next above),
          )
      | inr over ↦ (y, found_none k y (z ∷ zs) up_to (rw over refl), head refl, up_to, le_y)
    ]

IsFound-entry :
    (k : ℕ × ℕ) (es : List SnapEntry) (x : SnapEntry)
    → is_sorted_by_key es ≡ true
    → Memᴰ x es
    → key_le (key x) k ≡ true
    → IsFound k x es
IsFound-entry k [] x s m h = absurd (Memᴰ.not-nil m)
IsFound-entry k (y ∷ []) x s m h = elim (cases_cons m) [
  | inl same ↦
      let up_to : key_le (key y) k ≡ true =
        ap (λ (e : SnapEntry). key_le (key e) k) (sym same) ∙ h in
      (
        y,
        found_none k y [] up_to (no_entries k),
        head refl,
        up_to,
        ap (λ (e : SnapEntry). key_le (key x) (key e)) (sym same) ∙ key_le_refl (key x),
      )
  | inr m' ↦ absurd (Memᴰ.not-nil m')
]
IsFound-entry k (y ∷ z ∷ zs) x s m h =
    let s' = sorted_tail y (z ∷ zs) s in
    elim (cases_cons m) [
      | inl same ↦
          IsFound-first k x y z zs same h (sorted_first y (z ∷ zs) z s (head refl))
            (λ more. IsFound-entry k (z ∷ zs) z s' (head refl) more)
      | inr m' ↦
          IsFound-behind (partition_point k (z ∷ zs)) k x y (z ∷ zs) refl
            (key_le_trans (key y) (key x) k (sorted_first y (z ∷ zs) x s m') h)
            (IsFound-entry k (z ∷ zs) x s' m' h)
    ]

-- Where the instrument has an entry up to the time, `latest_at` gives one of that instrument up to
-- that time, which is no earlier.
pub latest_at-found :
    (es : List SnapEntry) (x : SnapEntry) (t : ℕ)
    → is_sorted_by_key es ≡ true
    → Memᴰ x es
    → x.mono ≤ t
    → (e : SnapEntry) × (latest_at es x.instrument t ≡ some e)
      × Memᴰ e es
      × (e.instrument ≡ x.instrument)
      × (e.mono ≤ t)
      × (x.mono ≤ e.mono)
unfolding latest_at
latest_at-found es x t s m h =
    let (e, f, m', below, above) = IsFound-entry (x.instrument, t) es x s m (ground arith) in
    let same : e.instrument ≡ x.instrument = ground (arith, below, above) in
    let test : (e.instrument == x.instrument) ≡ true = ground (arith, same) in
    (
      e,
      ap (of_instrument x.instrument) f ∙ rw test refl,
      m',
      same,
      ground (arith, below, same),
      ground (arith, above, same),
    )
