-- ===== src/Prelude/Slices.antt =====
-- Reading from the front of a list of bytes, and slices of it.
use flashbook.Prelude.Tests.{◌>>=◌}
use flashbook.Prelude.Lists.{length, take, drop, length-drop, length-take_le, drop_all}
use Prim.Native.Nat.{ℕ, zero, suc, ◌+◌, ◌≤◌, ◌<◌}
use mathlib.Core.Path.{◌≡◌, refl, sym, ap, ◌∙◌}
use mathlib.Core.Option.{Option, none, some}
use mathlib.Core.List.{List, [], ◌∷◌, ◌++◌, append_assoc}
use native.Mathlib.Omega.{arith}

module _ {ℓ} {A : Type ℓ} where
  abbrev behind : A → List A × List A → Option (List A × List A)
  behind x (xs, b) = some (x ∷ xs, b)

  -- `read_exact`: the first `n`, and what is behind them; none, if there are fewer.
  unfoldable pub read_exact : ℕ → List A → Option (List A × List A)
  read_exact zero b = some ([], b)
  read_exact (suc n) [] = none
  read_exact (suc n) (x ∷ b) = read_exact n b >>= behind x

  pub read_exact-append : (xs b : List A) → read_exact (length xs) (xs ++ b) ≡ some (xs, b)
  unfolding read_exact
  read_exact-append [] b = refl
  read_exact-append (x ∷ xs) b = ap (λ o. o >>= behind x) (read_exact-append xs b)

  pub read_exact_parts :
      (n : ℕ) (b xs rest : List A)
      → read_exact n b ≡ some (xs, rest)
      → (b ≡ xs ++ rest) × (length xs ≡ n)
  unfolding read_exact
  read_exact_parts zero b xs rest e = ground arith
  read_exact_parts (suc n) [] xs rest e = absurd (ground arith)
  read_exact_parts (suc n) (x ∷ b) xs rest e = go (read_exact n b) (read_exact_parts n b) refl e
    where
      go :
          (o : Option (List A × List A))
          → ((ys r : List A) → read_exact n b ≡ some (ys, r) → (b ≡ ys ++ r) × (length ys ≡ n))
          → read_exact n b ≡ o
          → (o >>= behind x) ≡ some (xs, rest)
          → (x ∷ b ≡ xs ++ rest) × (length xs ≡ suc n)
      go none ih d h = absurd (ground arith)
      go (some (ys, r)) ih d h = ground (arith, ih ys r d)

  pub read_exact_short : (n : ℕ) (b : List A) → length b < n → read_exact n b ≡ none
  unfolding read_exact
  read_exact_short zero b h = absurd (omega arith)
  read_exact_short (suc n) [] h = refl
  read_exact_short (suc n) (x ∷ b) h = ap (λ o. o >>= behind x) (read_exact_short n b (omega arith))

  pub take-append : (xs ys : List A) (n : ℕ) → n ≡ length xs → take n (xs ++ ys) ≡ xs
  take-append [] ys n e = ap (λ k. take k ys) e
  take-append (x ∷ xs) ys n e =
      ap (λ k. take k (x ∷ xs ++ ys)) e ∙ ap (◌∷◌ x) (take-append xs ys (length xs) refl)

  pub drop-append : (xs ys : List A) (n : ℕ) → n ≡ length xs → drop n (xs ++ ys) ≡ ys
  drop-append [] ys n e = ap (λ k. drop k ys) e
  drop-append (x ∷ xs) ys n e =
      ap (λ k. drop k (x ∷ xs ++ ys)) e ∙ drop-append xs ys (length xs) refl

  -- A slice with something in front of it and behind it.
  pub slice-append :
      (xs ys zs : List A) (n m : ℕ)
      → n ≡ length xs
      → m ≡ length ys
      → take m (drop n (xs ++ ys ++ zs)) ≡ ys
  slice-append xs ys zs n m e f =
      ap (take m) (ap (drop n) (append_assoc xs ys zs) ∙ drop-append xs (ys ++ zs) n e)
      ∙ take-append ys zs m f

  pub length-slice : (n m : ℕ) (xs : List A) → n + m ≤ length xs → length (take m (drop n xs)) ≡ m
  length-slice n m xs h = length-take_le m (drop n xs) (omega (arith, length-drop n xs))

  pub drop-drop : (n m k : ℕ) (xs : List A) → k ≡ n + m → drop m (drop n xs) ≡ drop k xs
  drop-drop zero m k xs e = ap (λ j. drop j xs) (omega arith)
  drop-drop (suc n) m k [] e = drop_all m [] (omega arith) ∙ sym (drop_all k [] (omega arith))
  drop-drop (suc n) m k (x ∷ xs) e =
      let same : suc (n + m) ≡ k = omega arith in
      drop-drop n m (n + m) xs refl ∙ ap (λ j. drop j (x ∷ xs)) same
