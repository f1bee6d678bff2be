-- ===== src/Lob/BookSet/Routing.antt =====
-- Every book of the set is the run of the events of its own instrument.
use flashbook.Prelude.{
  ℕ, ◌≡◌, refl, arith, Bool, true, false, Option, none, some, List, [], ◌∷◌, ◌==◌, if◌then◌else◌,
  is_none,
}
use flashbook.Proto.Event.{Event}
use mathlib.Core.Option
use flashbook.Lob.Book.{Apply, L2Book}
use flashbook.Lob.Run.{run}
use flashbook.Lob.BookSet.{Books, BookSet, new, lookup, get, at_entry, apply}

-- The events of one instrument, and the answers that they got.
unfoldable pub events_of : ℕ → List Event → List Event
events_of id [] = []
events_of id (ev ∷ evs) =
    let rest = events_of id evs in if id == ev.instrument then ev ∷ rest else rest

unfoldable pub answers_of : ℕ → List Event → List Apply → List Apply
answers_of id (ev ∷ evs) (r ∷ rs) =
    let rest = answers_of id evs rs in if id == ev.instrument then r ∷ rest else rest
answers_of id _ _ = []

module _ {B : Type 0} (book : L2Book B) where
  unfoldable pub run_set : List Event → BookSet B → BookSet B × List Apply
  run_set [] s = (s, [])
  run_set (ev ∷ evs) s =
      let (s', r) = apply book ev s in let (s'', rs) = run_set evs s' in (s'', r ∷ rs)

lookup-at_entry :
    {B R : Type 0} (id k : ℕ) (fresh : B) (f : B → B × R) (m : Books B)
    → lookup id (at_entry k fresh f m).0
      ≡ (if id == k then some (f (Option.get_or (lookup k m) fresh)).0 else lookup id m)
unfolding lookup at_entry
lookup-at_entry id k fresh f [] = ground arith
lookup-at_entry id k fresh f ((j, b) ∷ m) = ground (arith, lookup-at_entry id k fresh f m)

told-at_entry :
    {B R : Type 0} (k : ℕ) (fresh : B) (f : B → B × R) (m : Books B)
    → (at_entry k fresh f m).1 ≡ (f (Option.get_or (lookup k m) fresh)).1
unfolding lookup at_entry
told-at_entry k fresh f [] = refl
told-at_entry k fresh f ((j, b) ∷ m) = ground (arith, told-at_entry k fresh f m)

-- Whether a list of events is empty.
abbrev no_events : List Event → Bool
no_events [] = true
no_events (ev ∷ evs) = false

abbrev pub seen {ℓ} : {B : Type ℓ} → List Event → B → Option B
seen evs b = if no_events evs then none else some b

module _ {B : Type 0} (book : L2Book B) (id : ℕ) where
  -- The book of the instrument, or the one that its first event would make.
  abbrev book_of : BookSet B → B
  book_of s = Option.get_or (get id s) (s.make s.default_max_depth)

  book_of-apply :
      (ev : Event) (s : BookSet B)
      → book_of (apply book ev s).0
        ≡ (if id == ev.instrument then (book.apply ev (book_of s)).0 else book_of s)
  unfolding apply
  book_of-apply ev s =
      ground (
        arith,
        lookup-at_entry id ev.instrument (s.make s.default_max_depth) (book.apply ev) s.books,
      )

  is_none-apply :
      (ev : Event) (s : BookSet B)
      → is_none (get id (apply book ev s).0)
        ≡ (if id == ev.instrument then false else is_none (get id s))
  unfolding apply
  is_none-apply ev s =
      ground (
        arith,
        lookup-at_entry id ev.instrument (s.make s.default_max_depth) (book.apply ev) s.books,
      )

  told-apply :
      (ev : Event) (s : BookSet B)
      → (id == ev.instrument) ≡ true
      → (apply book ev s).1 ≡ (book.apply ev (book_of s)).1
  unfolding apply
  told-apply ev s h =
      ground
        (arith, told-at_entry ev.instrument (s.make s.default_max_depth) (book.apply ev) s.books)

  book_of-run_set :
      (evs : List Event) (s : BookSet B)
      → book_of (run_set book evs s).0 ≡ (run book (events_of id evs) (book_of s)).0
  unfolding run_set run events_of
  book_of-run_set [] s = refl
  book_of-run_set (ev ∷ evs) s =
      ground (arith, book_of-run_set evs (apply book ev s).0, book_of-apply ev s)

  is_none-run_set :
      (evs : List Event) (s : BookSet B)
      → is_none (get id (run_set book evs s).0)
        ≡ (if no_events (events_of id evs) then is_none (get id s) else false)
  unfolding run_set events_of
  is_none-run_set [] s = refl
  is_none-run_set (ev ∷ evs) s =
      ground (arith, is_none-run_set evs (apply book ev s).0, is_none-apply ev s)

  told-run_set :
      (evs : List Event) (s : BookSet B)
      → answers_of id evs (run_set book evs s).1 ≡ (run book (events_of id evs) (book_of s)).1
  unfolding run_set run events_of answers_of
  told-run_set [] s = refl
  told-run_set (ev ∷ evs) s =
      ground (arith, told-run_set evs (apply book ev s).0, book_of-apply ev s, told-apply ev s)

-- What is found, from whether something is found and which book that is.
found :
    {B : Type 0} (o : Option B) (b d : B) (c : Bool)
    → is_none o ≡ (if c then true else false)
    → Option.get_or o d ≡ b
    → o ≡ (if c then none else some b)
found o b d c h g = ground arith

-- In a new set of books, after any stream of events: the book of an instrument is there exactly if
-- the stream has an event of it, and it is a fresh book after just the instrument's own events, in
-- their order; and each of those events was answered as that book answers it.
pub run_set_routes :
    {B : Type 0} (book : L2Book B) (depth : Option ℕ) (make : Option ℕ → B) (id : ℕ)
    (evs : List Event)
    → (get id (run_set book evs (new depth make)).0
        ≡ seen (events_of id evs) (run book (events_of id evs) (make depth)).0)
      × (answers_of id evs (run_set book evs (new depth make)).1
          ≡ (run book (events_of id evs) (make depth)).1)
unfolding lookup
run_set_routes book depth make id evs = (
  found _ _ _ (no_events (events_of id evs)) (is_none-run_set book id evs (new depth make))
      (book_of-run_set book id evs (new depth make)),
  told-run_set book id evs (new depth make),
)
