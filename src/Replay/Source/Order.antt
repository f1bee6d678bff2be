-- ===== src/Replay/Source/Order.antt =====
-- crates/replay/src/source.rs: which record `MergedStream::next` gives.
use flashbook.Prelude.{
  ℕ, zero, suc, ◌≡◌, refl, sym, ap, ◌∙◌, arith, true, false, Option, none, some, List, [], ◌∷◌,
  ◌++◌, length, length-append, get_elem?, if◌then◌else◌, Bool-cases, inl, inr, All, ok,
}
use flashbook.Prelude.Results.{>>=-eq-ok, ok_is}
use flashbook.Replay.Source.{
  Stream, MergedRecord, MergedStream, key_lt, better, best_from, set_head, pull, next_of, next,
}
use flashbook.Proto.Hasher.{Hasher}
use mathlib.Core.Path.{subst}
use mathlib.Core.List.{append_assoc, append-nil}

-- The head, if there is one, does not come before `rec`.
abbrev pub NotBefore : MergedRecord → Option MergedRecord → Type 0
NotBefore rec none = Unit {0}
NotBefore rec (some h) = key_lt h rec ≡ false

-- The best of some heads, at its place; none, where there is no head.
abbrev pub IsBest : List (Option MergedRecord) → Option (ℕ × MergedRecord) → Type 0
IsBest heads none = All (λ h. h ≡ none) heads
IsBest heads (some (i, rec)) = (get_elem? heads i ≡ some (some rec)) × All (NotBefore rec) heads

All_snoc :
    {A : Type 0} (P : A → Type 0) (xs : List A) (y : A) → All P xs → P y → All P (xs ++ (y ∷ []))
All_snoc P [] y a p = (p, tt)
All_snoc P (x ∷ xs) y a p = (a.0, All_snoc P xs y a.1 p)

All_map :
    {A : Type 0} (P Q : A → Type 0) (xs : List A) → ((x : A) → P x → Q x) → All P xs → All Q xs
All_map P Q [] f a = tt
All_map P Q (x ∷ xs) f a = (f x a.0, All_map P Q xs f a.1)

get_elem_before :
    {A : Type 0} (xs : List A) (y : A) (i : ℕ) (x : A)
    → get_elem? xs i ≡ some x
    → get_elem? (xs ++ (y ∷ [])) i ≡ some x
get_elem_before [] y i x e = absurd (ground arith)
get_elem_before (z ∷ xs) y zero x e = e
get_elem_before (z ∷ xs) y (suc i) x e = get_elem_before xs y i x e

get_elem_last : {A : Type 0} (xs : List A) (y : A) → get_elem? (xs ++ (y ∷ [])) (length xs) ≡ some y
get_elem_last [] y = refl
get_elem_last (x ∷ xs) y = get_elem_last xs y

key_lt_irrefl : (a : MergedRecord) → key_lt a a ≡ false
key_lt_irrefl a = ground arith

key_lt_flip : (a b : MergedRecord) → key_lt a b ≡ true → key_lt b a ≡ false
key_lt_flip a b h = ground arith

key_lt_trans : (a b c : MergedRecord) → key_lt a b ≡ true → key_lt c b ≡ false → key_lt c a ≡ false
key_lt_trans a b c h g = ground arith

NotBefore-better :
    (rec cur : MergedRecord) (h : Option MergedRecord)
    → key_lt rec cur ≡ true
    → NotBefore cur h
    → NotBefore rec h
NotBefore-better rec cur none e n = tt
NotBefore-better rec cur (some x) e n = key_lt_trans rec cur x e n

NotBefore-none : (rec : MergedRecord) (h : Option MergedRecord) → h ≡ none → NotBefore rec h
NotBefore-none rec none e = tt
NotBefore-none rec (some x) e = absurd (ground arith)

-- One more head.
IsBest-none :
    (front : List (Option MergedRecord)) (best : Option (ℕ × MergedRecord))
    → IsBest front best
    → IsBest (front ++ (none ∷ [])) best
IsBest-none front none b = All_snoc (λ h. h ≡ none) front none b refl
IsBest-none front (some (i, cur)) b =
    (get_elem_before front none i (some cur) b.0, All_snoc (NotBefore cur) front none b.1 tt)

IsBest-some :
    (front : List (Option MergedRecord)) (rec : MergedRecord) (best : Option (ℕ × MergedRecord))
    → IsBest front best
    → IsBest (front ++ (some rec ∷ [])) (if better rec best then some (length front, rec) else best)
IsBest-some front rec none b = (
  get_elem_last front (some rec),
  All_snoc (NotBefore rec) front (some rec) (All_map _ (NotBefore rec) front (NotBefore-none rec) b)
      (key_lt_irrefl rec),
)
IsBest-some front rec (some (i, cur)) b = elim (Bool-cases (key_lt rec cur)) [
  | inl less ↦ rw less (
    get_elem_last front (some rec),
    All_snoc (NotBefore rec) front (some rec)
        (All_map (NotBefore cur) (NotBefore rec) front (λ h. NotBefore-better rec cur h less) b.1)
        (key_lt_irrefl rec),
  )
  | inr not_less ↦ rw not_less (
    get_elem_before front (some rec) i (some cur) b.0,
    All_snoc (NotBefore cur) front (some rec) b.1 not_less,
  )
]

best_from-IsBest :
    (i : ℕ) (front heads : List (Option MergedRecord)) (best : Option (ℕ × MergedRecord))
    → i ≡ length front
    → IsBest front best
    → IsBest (front ++ heads) (best_from i heads best)
unfolding best_from
best_from-IsBest i front [] best e b = subst (λ l. IsBest l best) (sym (append-nil front)) b
best_from-IsBest i front (none ∷ heads) best e b =
    subst (λ l. IsBest l (best_from (suc i) heads best)) (append_assoc front (none ∷ []) heads)
      (best_from-IsBest (suc i) (front ++ (none ∷ [])) heads best
        (omega (arith, e, length-append front (none ∷ []))) (IsBest-none front best b))
best_from-IsBest i front (some rec ∷ heads) best e b =
    let best' = if better rec best then some (i, rec) else best in
    subst (λ l. IsBest l (best_from (suc i) heads best')) (append_assoc front (some rec ∷ []) heads)
      (best_from-IsBest (suc i) (front ++ (some rec ∷ [])) heads best'
        (omega (arith, e, length-append front (some rec ∷ [])))
        (subst
          (λ n. IsBest (front ++ (some rec ∷ [])) (if better rec best then some (n, rec) else best))
          (sym e) (IsBest-some front rec best b)))

All_get :
    {A : Type 0} (P : A → Type 0) (xs : List A) (i : ℕ) (x : A)
    → All P xs
    → get_elem? xs i ≡ some x
    → P x
All_get P [] i x a e = absurd (ground arith)
All_get P (y ∷ xs) zero x a e = let same : y ≡ x = ground (arith, e) in subst P same a.0
All_get P (y ∷ xs) (suc i) x a e = All_get P xs i x a.1 e

set_head-All :
    (out : MergedRecord) (i : ℕ) (h : Option MergedRecord) (heads : List (Option MergedRecord))
    → NotBefore out h
    → All (NotBefore out) heads
    → All (NotBefore out) (set_head i h heads)
unfolding set_head
set_head-All out i h [] n a = tt
set_head-All out zero h (x ∷ heads) n a = (n, a.1)
set_head-All out (suc i) h (x ∷ heads) n a = (a.0, set_head-All out i h heads n a.1)

module _ (hasher : Hasher) (unzip : List ℕ → Option Stream) where
  -- What an answer of `next` is: the end, with no head left, or the head that comes first, which
  -- its own cursor alone replaces.
  abbrev pub IsNext : MergedStream → Option MergedRecord → MergedStream → Type 0
  IsNext s none s' = All (λ h. h ≡ none) s.heads × (s' ≡ s)
  IsNext s (some out) s' =
      (i : ℕ) × (h : Option MergedRecord) × (get_elem? s.heads i ≡ some (some out))
      × All (NotBefore out) s.heads
      × (pull hasher unzip i s.cursors ≡ ok (h, s'.cursors))
      × (s'.heads ≡ set_head i h s.heads)

  next_of-IsNext :
      (best : Option (ℕ × MergedRecord)) (s s' : MergedStream) (a : Option MergedRecord)
      → IsBest s.heads best
      → next_of hasher unzip best s ≡ ok (a, s')
      → IsNext s a s'
  unfolding next_of
  next_of-IsNext none s s' a b e =
      subst (λ (x : Option MergedRecord × MergedStream). IsNext s x.0 x.1) (ok_is e) (b, refl)
  next_of-IsNext (some (i, out)) s s' a b e =
      let (x, d, e1) = >>=-eq-ok (pull hasher unzip i s.cursors) _ e in
      subst (λ (x : Option MergedRecord × MergedStream). IsNext s x.0 x.1) (ok_is e1)
        (i, x.0, b.0, b.1, d, refl)

  -- Where `next` succeeds, its answer is the end only if no head is left, and then nothing changes;
  -- a record that it gives is one of the heads, and none of them comes before it in the order of
  -- time and then venue. The cursor of that head, and no other, is read to replace it.
  pub next-IsNext :
      (s s' : MergedStream) (a : Option MergedRecord)
      → next hasher unzip s ≡ ok (a, s')
      → IsNext s a s'
  unfolding next
  next-IsNext s s' a e =
      next_of-IsNext (best_from 0 s.heads none) s s' a (best_from-IsBest 0 [] s.heads none refl tt)
        e

  -- Where every record that the stream gives is followed by no earlier one of its venue, the records
  -- of two calls in a row are in the order of time and then venue.
  pub next_in_order :
      (s s' s2 : MergedStream) (out out2 : MergedRecord)
      → ((i : ℕ) (h : Option MergedRecord)
          → get_elem? s.heads i ≡ some (some out)
          → pull hasher unzip i s.cursors ≡ ok (h, s'.cursors)
          → NotBefore out h)
      → next hasher unzip s ≡ ok (some out, s')
      → next hasher unzip s' ≡ ok (some out2, s2)
      → key_lt out2 out ≡ false
  next_in_order s s' s2 out out2 ascends e f =
      let (i, h, at, first, pulled, heads) = next-IsNext s s' (some out) e in
      let (j, h2, at2, _, _, _) = next-IsNext s' s2 (some out2) f in
      All_get (NotBefore out) (set_head i h s.heads) j (some out2)
        (set_head-All out i h s.heads (ascends i h at pulled) first)
        (ap (λ l. get_elem? l j) (sym heads) ∙ at2)
