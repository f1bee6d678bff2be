-- ===== src/Proto/Instrument/Lookup.antt =====
-- crates/proto/src/instrument.rs: what the lookups find after an insert.
use flashbook.Prelude.{
  ℕ, zero, suc, ◌<◌, some, List, [], ◌∷◌, ◌++◌, length, get_elem?, ◌==◌, if◌then◌else◌, ok, ◌>>=◌,
  ◌≡◌, refl, sym, ap, arith, Bool-cases, inl, inr,
}
use flashbook.Proto.Event.{Venue}
use flashbook.Proto.Instrument.{
  InstrumentMeta, Registry, find_id, find_symbol, same_key, insert, get, id_of,
}
use mathlib.Core.Path.{subst}
use Prim.Native.String.{String}

get_elem?-snoc :
    {A : Type 0} (xs : List A) (x : A) → get_elem? (xs ++ (x ∷ [])) (length xs) ≡ some x
get_elem?-snoc [] x = refl
get_elem?-snoc (y ∷ xs) x = get_elem?-snoc xs x

get_elem?-append :
    {A : Type 0} (xs ys : List A) (i : ℕ) → i < length xs → get_elem? (xs ++ ys) i ≡ get_elem? xs i
get_elem?-append [] ys i h = absurd (omega arith)
get_elem?-append (x ∷ xs) ys zero h = refl
get_elem?-append (x ∷ xs) ys (suc i) h = get_elem?-append xs ys i (omega arith)

-- Every index that a registry keeps is one of its metas.
abbrev InRange : List (ℕ × ℕ) → ℕ → Type 0
InRange [] n = Unit
InRange (e ∷ m) n = (e.1 < n) × InRange m n

abbrev pub IsIndexed : Registry → Type 0
IsIndexed r = InRange r.by_id (length r.metas)

kept :
    (m : List (ℕ × ℕ)) (xs ys : List InstrumentMeta) (j : ℕ)
    → InRange m (length xs)
    → (find_id j m >>= λ i. get_elem? (xs ++ ys) i) ≡ (find_id j m >>= λ i. get_elem? xs i)
unfolding find_id
kept [] xs ys j h = refl
kept ((k, i) ∷ m) xs ys j h = elim (Bool-cases (j == k)) [
  | inl e ↦ rw e (get_elem?-append xs ys i h.0)
  | inr e ↦ rw e (kept m xs ys j h.1)
]

-- The registry that an accepted insert leaves.
inserted :
    (m : InstrumentMeta) (r r' : Registry)
    → insert m r ≡ ok r'
    → r' ≡ record {
      metas = r.metas ++ (m ∷ []);
      by_id = (m.id, length r.metas) ∷ r.by_id;
      by_venue_symbol = ((m.venue, m.venue_symbol), m.id) ∷ r.by_venue_symbol;
    }
unfolding insert
inserted m r r' e = ground arith

InRange-suc : (m : List (ℕ × ℕ)) (n : ℕ) → InRange m n → InRange m (suc n)
InRange-suc [] n h = tt
InRange-suc (e ∷ m) n h = (omega (arith, h.0), InRange-suc m n h.1)

length-snoc : {A : Type 0} (xs : List A) (x : A) → length (xs ++ (x ∷ [])) ≡ suc (length xs)
length-snoc [] x = refl
length-snoc (y ∷ xs) x = ap suc (length-snoc xs x)

get-inserted :
    (m : InstrumentMeta) (r : Registry) (j : ℕ)
    → IsIndexed r
    → (find_id j ((m.id, length r.metas) ∷ r.by_id) >>= λ i. get_elem? (r.metas ++ (m ∷ [])) i)
      ≡ (if j == m.id then some m else get j r)
unfolding find_id get
get-inserted m r j h = elim (Bool-cases (j == m.id)) [
  | inl e ↦ rw e (get_elem?-snoc r.metas m)
  | inr e ↦ rw e (kept r.by_id r.metas (m ∷ []) j h)
]

-- After an insert that is accepted into a registry whose indices are in range, `get` finds the new
-- instrument under its id, `id_of` finds that id under its venue and symbol, every other lookup
-- answers as before, and the indices are in range again.
pub insert_lookups :
    (m : InstrumentMeta) (r r' : Registry) (j : ℕ) (venue : Venue) (symbol : String)
    → IsIndexed r
    → insert m r ≡ ok r'
    → (get j r' ≡ (if j == m.id then some m else get j r))
      × (id_of venue symbol r' ≡ (
          if same_key (venue, symbol) (m.venue, m.venue_symbol)
          then some m.id
          else id_of venue symbol r))
      × IsIndexed r'
unfolding get id_of find_symbol
insert_lookups m r r' j venue symbol h e = rw (inserted m r r' e) (
  get-inserted m r j h,
  refl,
  (
    omega (arith, length-snoc r.metas m),
    subst (InRange r.by_id) (sym (length-snoc r.metas m)) (InRange-suc r.by_id (length r.metas) h),
  ),
)
