-- ===== src/Prelude/Lists.antt =====
-- Slices and vectors as lists with native indices.
use Prim.Native.Nat.{ℕ, zero, suc, ◌+◌, ◌-◌, ◌≤◌}
use mathlib.Core.Path.{◌≡◌, refl, sym, ap, ap₂, ◌∙◌}
use mathlib.Core.Option.{Option, none, some}
use mathlib.Core.List.{List, [], ◌∷◌, ◌++◌, reverse, reverse-append, reverse-reverse}
use native.Mathlib.Omega.{arith}

module _ {ℓ} {A : Type ℓ} where
  abbrev pub length : List A → ℕ
  length [] = 0
  length (x ∷ xs) = suc (length xs)

  abbrev pub get_elem? : List A → ℕ → Option A
  get_elem? [] i = none
  get_elem? (x ∷ xs) zero = some x
  get_elem? (x ∷ xs) (suc i) = get_elem? xs i

  abbrev pub take : ℕ → List A → List A
  take zero xs = []
  take (suc n) [] = []
  take (suc n) (x ∷ xs) = x ∷ take n xs

  abbrev pub drop : ℕ → List A → List A
  drop zero xs = xs
  drop (suc n) [] = []
  drop (suc n) (x ∷ xs) = drop n xs

  -- `slice.first()` and `slice.last()`
  abbrev pub first : List A → Option A
  first [] = none
  first (x ∷ xs) = some x

  abbrev pub last : List A → Option A
  last [] = none
  last (x ∷ []) = some x
  last (x ∷ y ∷ xs) = last (y ∷ xs)

  abbrev pub All {κ} : (A → Type κ) → List A → Type κ
  All P [] = Unit {κ}
  All P (x ∷ xs) = P x × All P xs

  pub length-append : (xs ys : List A) → length (xs ++ ys) ≡ length xs + length ys
  length-append [] ys = omega arith
  length-append (x ∷ xs) ys = omega (arith, length-append xs ys)

  pub length-reverse : (xs : List A) → length (reverse xs) ≡ length xs
  length-reverse [] = refl
  length-reverse (x ∷ xs) =
      ap length (reverse-append (x ∷ []) xs)
      ∙ length-append (reverse xs) (x ∷ [])
      ∙ omega (arith, length-reverse xs)

  pub last-append : (xs : List A) (y : A) → last (xs ++ (y ∷ [])) ≡ some y
  last-append [] y = refl
  last-append (x ∷ []) y = refl
  last-append (x ∷ x' ∷ xs) y = last-append (x' ∷ xs) y

  pub last-reverse : (xs : List A) → last (reverse xs) ≡ first xs
  last-reverse [] = refl
  last-reverse (x ∷ xs) = ap last (reverse-append (x ∷ []) xs) ∙ last-append (reverse xs) x

  pub first-reverse : (xs : List A) → first (reverse xs) ≡ last xs
  first-reverse xs = sym (last-reverse (reverse xs)) ∙ ap last (reverse-reverse xs)

  pub drop_all : (n : ℕ) (xs : List A) → length xs ≤ n → drop n xs ≡ []
  drop_all zero [] h = refl
  drop_all zero (x ∷ xs) h = absurd (omega arith)
  drop_all (suc n) [] h = refl
  drop_all (suc n) (x ∷ xs) h = drop_all n xs (omega arith)

  pub take_all : (n : ℕ) (xs : List A) → length xs ≤ n → take n xs ≡ xs
  take_all zero [] h = refl
  take_all zero (x ∷ xs) h = absurd (omega arith)
  take_all (suc n) [] h = refl
  take_all (suc n) (x ∷ xs) h = ap₂ ◌∷◌ refl (take_all n xs (omega arith))

  pub length-take : (n : ℕ) (xs : List A) → length (take n xs) ≤ n
  length-take zero xs = omega arith
  length-take (suc n) [] = omega arith
  length-take (suc n) (x ∷ xs) = omega (arith, length-take n xs)

  pub length-drop : (n : ℕ) (xs : List A) → length (drop n xs) ≡ length xs - n
  length-drop zero xs = omega arith
  length-drop (suc n) [] = omega arith
  length-drop (suc n) (x ∷ xs) = omega (arith, length-drop n xs)

  pub take_append_le : (n : ℕ) (xs ys : List A) → n ≤ length xs → take n (xs ++ ys) ≡ take n xs
  take_append_le zero xs ys h = refl
  take_append_le (suc n) [] ys h = absurd (omega arith)
  take_append_le (suc n) (x ∷ xs) ys h = ap₂ ◌∷◌ refl (take_append_le n xs ys (omega arith))

  pub take_append_ge :
      (n : ℕ) (xs ys : List A) → length xs ≤ n → take n (xs ++ ys) ≡ xs ++ take (n - length xs) ys
  take_append_ge n [] ys h = ap (λ k. take k ys) (omega arith)
  take_append_ge zero (x ∷ xs) ys h = absurd (omega arith)
  take_append_ge (suc n) (x ∷ xs) ys h =
      ap (◌∷◌ x) (take_append_ge n xs ys (omega arith) ∙ ap (λ k. xs ++ take k ys) (omega arith))

  pub length-take_le : (n : ℕ) (xs : List A) → n ≤ length xs → length (take n xs) ≡ n
  length-take_le zero xs h = refl
  length-take_le (suc n) [] h = absurd (omega arith)
  length-take_le (suc n) (x ∷ xs) h = omega (arith, length-take_le n xs)

  -- Dropping `k` at the front of a list keeps all but `k` at the end of its reverse.
  pub reverse-drop : (k : ℕ) (xs : List A) → reverse (drop k xs) ≡ take (length xs - k) (reverse xs)
  reverse-drop zero xs =
      sym (take_all (length xs - 0) (reverse xs) (omega (arith, length-reverse xs)))
  reverse-drop (suc k) [] = sym (take_all (0 - suc k) [] (omega arith))
  reverse-drop (suc k) (x ∷ xs) =
      reverse-drop k xs
      ∙ sym (
          ap (take _) (reverse-append (x ∷ []) xs)
          ∙ take_append_le _ (reverse xs) (x ∷ []) (omega (arith, length-reverse xs))
          ∙ ap (λ n. take n (reverse xs)) (omega arith))
