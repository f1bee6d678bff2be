-- ===== src/Store/Pit/Points.antt =====
-- crates/store/src/pit.rs: the entries of an index that was built, against the segment.
use flashbook.Prelude.{
  ℕ, zero, suc, ◌^◌, ◌≤◌, ◌≡◌, refl, sym, ap, ◌∙◌, arith, Bool, true, false, Option, none, some,
  List, [], ◌∷◌, ◌++◌, get_elem?, drop, ltb, ◌==◌, ==→eq, Bool-cases, inl, inr, All, Result, ok,
  err,
}
use flashbook.Prelude.Results.{>>=-eq-ok, required-eq-ok, ok_is}
use flashbook.Proto.Event.{
  Event, EventKind, bid_set, ask_set, trade, snap_begin, snap_bid, snap_ask, snap_end, checksum,
  heartbeat, gap, clear,
}
use flashbook.Store.Pit.{
  PitError, SnapEntry, StoreBlock, Pending, Building, pending_of, remove_pending, completed,
  build_kind, kind_of, build_events, decode, build_blocks, build, key, key_le, insert_by_key,
  sort_by_key, is_sorted_by_key, latest_at,
}
use flashbook.Store.Pit.Latest.{sort_sorted, latest_at-found}
use flashbook.Store.Pit.Window.{
  Sunk, window_events, points_at, unless_past, window_blocks, window_at, window_from, pit_scan,
}
use mathlib.Core.Path.{subst}
use mathlib.Core.List.{Memᴰ}
use mathlib.Core.List.Memᴰ
use mathlib.Core.List.Memᴰ.{cases_cons}

All-append : {A : Type 0} (P : A → Type 0) (xs ys : List A) → All P xs → All P ys → All P (xs ++ ys)
All-append P [] ys a b = b
All-append P (x ∷ xs) ys a b = (a.0, All-append P xs ys a.1 b)

All-drop : {A : Type 0} (P : A → Type 0) (n : ℕ) (xs : List A) → All P xs → All P (drop n xs)
All-drop P zero xs a = a
All-drop P (suc n) [] a = a
All-drop P (suc n) (x ∷ xs) a = All-drop P n xs a.1

All_member : {A : Type 0} (P : A → Type 0) (xs : List A) (x : A) → All P xs → Memᴰ x xs → P x
All_member P [] x a m = absurd (Memᴰ.not-nil m)
All_member P (y ∷ xs) x a m = elim (cases_cons m) [
  | inl same ↦ subst P (sym same) a.0
  | inr m' ↦ All_member P xs x a.1 m'
]

next_drop :
    {A : Type 0} (n : ℕ) (xs : List A) (y : A) (ys : List A)
    → drop n xs ≡ y ∷ ys
    → drop (suc n) xs ≡ ys
next_drop zero [] y ys e = absurd (ground arith)
next_drop (suc n) [] y ys e = absurd (ground arith)
next_drop zero (x ∷ xs) y ys e = ground (arith, e)
next_drop (suc n) (x ∷ xs) y ys e = next_drop n xs y ys e

get_elem_drop :
    {A : Type 0} (n : ℕ) (xs : List A) (y : A) (ys : List A)
    → drop n xs ≡ y ∷ ys
    → get_elem? xs n ≡ some y
get_elem_drop zero [] y ys e = absurd (ground arith)
get_elem_drop (suc n) [] y ys e = absurd (ground arith)
get_elem_drop zero (x ∷ xs) y ys e = ground (arith, e)
get_elem_drop (suc n) (x ∷ xs) y ys e = get_elem_drop n xs y ys e

-- The entry of a pending snapshot.
abbrev entry_of : ℕ × Pending → SnapEntry
entry_of (id, p) = record {
  instrument = id;
  mono = p.mono;
  block_idx = p.block_idx;
  event_idx = p.event_idx;
}

module _ (P : SnapEntry → Type 0) where
  -- What is pending and what is complete is such an entry.
  record IsKept (s : Building) : Type 0 where
    pending : All (λ x. P (entry_of x)) s.pending
    entries : All P s.entries

  remove-All :
      (id : ℕ) (ps : List (ℕ × Pending))
      → All (λ x. P (entry_of x)) ps
      → All (λ x. P (entry_of x)) (remove_pending id ps)
  unfolding remove_pending
  remove-All id [] a = a
  remove-All id ((j, p) ∷ ps) a = elim (Bool-cases (id == j)) [
    | inl same ↦ rw same (remove-All id ps a.1)
    | inr other ↦ rw other (a.0, remove-All id ps a.1)
  ]

  completed-All :
      (id : ℕ) (ps : List (ℕ × Pending))
      → All (λ x. P (entry_of x)) ps
      → All P (completed id (pending_of id ps))
  unfolding completed pending_of
  completed-All id [] a = tt
  completed-All id ((j, p) ∷ ps) a = elim (Bool-cases (id == j)) [
    | inl same ↦ rw same (subst (λ n. P (entry_of (n, p))) (sym (==→eq id j same)) a.0, tt)
    | inr other ↦ rw other (completed-All id ps a.1)
  ]

  build_kind-IsKept :
      (kind : Option EventKind) (bi ei : ℕ) (e : Event) (s : Building)
      → IsKept s
      → (kind ≡ some snap_begin
          → P (
              entry_of
                (e.instrument, record { mono = e.recv_mono_ns; block_idx = bi; event_idx = ei })))
      → IsKept (build_kind kind bi ei e s)
  unfolding build_kind
  build_kind-IsKept (some snap_begin) bi ei e s k p = record {
    pending = (p refl, remove-All e.instrument s.pending k.pending);
    entries = k.entries;
  }
  build_kind-IsKept (some clear) bi ei e s k p = record {
    pending = remove-All e.instrument s.pending k.pending;
    entries = k.entries;
  }
  build_kind-IsKept (some snap_end) bi ei e s k p = record {
    pending = remove-All e.instrument s.pending k.pending;
    entries = All-append P s.entries _ k.entries (completed-All e.instrument s.pending k.pending);
  }
  build_kind-IsKept none bi ei e s k p = k
  build_kind-IsKept (some bid_set) bi ei e s k p = k
  build_kind-IsKept (some ask_set) bi ei e s k p = k
  build_kind-IsKept (some trade) bi ei e s k p = k
  build_kind-IsKept (some snap_bid) bi ei e s k p = k
  build_kind-IsKept (some snap_ask) bi ei e s k p = k
  build_kind-IsKept (some checksum) bi ei e s k p = k
  build_kind-IsKept (some heartbeat) bi ei e s k p = k
  build_kind-IsKept (some gap) bi ei e s k p = k

  insert-All : (e : SnapEntry) (es : List SnapEntry) → P e → All P es → All P (insert_by_key e es)
  unfolding insert_by_key
  insert-All e [] p a = (p, tt)
  insert-All e (x ∷ es) p a = elim (Bool-cases (key_le (key e) (key x))) [
    | inl before ↦ rw before (p, a)
    | inr behind ↦ rw behind (a.0, insert-All e es p a.1)
  ]

  sort-All : (es : List SnapEntry) → All P es → All P (sort_by_key es)
  unfolding sort_by_key
  sort-All [] a = a
  sort-All (e ∷ es) a = insert-All e (sort_by_key es) a.0 (sort-All es a.1)

points_at_begin :
    (e : Event) (bi ei : ℕ)
    → kind_of e ≡ some snap_begin
    → points_at
        (entry_of (e.instrument, record { mono = e.recv_mono_ns; block_idx = bi; event_idx = ei }))
        e
      ≡ true
points_at_begin e bi ei k =
    let id : (e.instrument == e.instrument) ≡ true = ground arith in
    let mono : (e.recv_mono_ns == e.recv_mono_ns) ≡ true = ground arith in rw (k, id, mono) refl

module _ {E : Type 0} where
  -- A block that is decoded without an error.
  abbrev IsRead : StoreBlock E → Type 0
  IsRead b = (events : List Event) × (b.decoded ≡ ok events)

  -- The entry points at an event of the segment, the `SnapBegin` that it was made from.
  pub record IsPoint (blocks : List (StoreBlock E)) (e : SnapEntry) : Type 0 where
    pub block : StoreBlock E
    pub behind : List (StoreBlock E)
    pub events : List Event
    pub event : Event
    pub at_block : drop e.block_idx blocks ≡ block ∷ behind
    pub read : block.decoded ≡ ok events
    pub at_event : get_elem? events e.event_idx ≡ some event
    pub same : points_at e event ≡ true

  build_events-IsKept :
      (blocks : List (StoreBlock E)) (bi : ℕ) (b : StoreBlock E) (rest : List (StoreBlock E))
      (all : List Event)
      → drop bi blocks ≡ b ∷ rest
      → b.decoded ≡ ok all
      → (ei : ℕ) (events : List Event) (s : Building) → drop ei all ≡ events
      → IsKept (IsPoint blocks) s
      → IsKept (IsPoint blocks) (build_events bi ei events s)
  unfolding build_events
  build_events-IsKept blocks bi b rest all d r ei [] s here k = k
  build_events-IsKept blocks bi b rest all d r ei (e ∷ events) s here k =
      build_events-IsKept blocks bi b rest all d r (suc ei) events
        (build_kind (kind_of e) bi ei e s) (next_drop ei all e events here)
        (build_kind-IsKept (IsPoint blocks) (kind_of e) bi ei e s k (λ begin. record {
          block = b;
          behind = rest;
          events = all;
          event = e;
          at_block = d;
          read = r;
          at_event = get_elem_drop ei all e events here;
          same = points_at_begin e bi ei begin;
        }))

  decode-ok :
      (r : Result (List Event) E) (events : List Event) → decode r ≡ ok events → r ≡ ok events
  decode-ok (ok all) events e = ap ok (ok_is e)
  decode-ok (err f) events e = absurd (ground arith)

  build_blocks-IsKept :
      (blocks : List (StoreBlock E)) (bi : ℕ) (suffix : List (StoreBlock E)) (s s' : Building)
      → drop bi blocks ≡ suffix
      → IsKept (IsPoint blocks) s
      → build_blocks bi suffix s ≡ ok s'
      → IsKept (IsPoint blocks) s' × All IsRead suffix
  unfolding build_blocks
  build_blocks-IsKept blocks bi [] s s' here k e = (subst (IsKept (IsPoint blocks)) (ok_is e) k, tt)
  build_blocks-IsKept blocks bi (b ∷ suffix) s s' here k e =
      let (_, e1) = required-eq-ok (ltb bi (2 ^ 32)) _ _ e in
      let (events, d, e2) = >>=-eq-ok (decode b.decoded) _ e1 in
      let read = decode-ok b.decoded events d in
      let (kept, others) =
        build_blocks-IsKept blocks (suc bi) suffix (build_events bi 0 events s) s'
          (next_drop bi blocks b suffix here)
          (build_events-IsKept blocks bi b suffix events here read 0 events s refl k) e2 in
      (kept, ((events, read), others))

  build-parts :
      (blocks : List (StoreBlock E)) (index : List SnapEntry)
      → build blocks ≡ ok index
      → (is_sorted_by_key index ≡ true) × All (IsPoint blocks) index × All IsRead blocks
  unfolding build
  build-parts blocks index e =
      let (s, b, e1) =
        >>=-eq-ok (build_blocks 0 blocks (record { pending = []; entries = [] })) _ e in
      let (kept, read) =
        build_blocks-IsKept blocks 0 blocks (record { pending = []; entries = [] }) s refl
          (record { pending = tt; entries = tt }) b in
      let same : sort_by_key s.entries ≡ index = ok_is e1 in
      (
        ap is_sorted_by_key (sym same) ∙ sort_sorted s.entries,
        subst (All (IsPoint blocks)) same (sort-All (IsPoint blocks) s.entries kept.entries),
        read,
      )

  -- The index that is built of a segment is in the order of instrument and time, and every entry
  -- points at a `SnapBegin` of the segment, of its instrument and time.
  pub build-IsPoint :
      (blocks : List (StoreBlock E)) (index : List SnapEntry)
      → build blocks ≡ ok index
      → (is_sorted_by_key index ≡ true) × All (IsPoint blocks) index
  build-IsPoint blocks index e =
      let (sorted, points, _) = build-parts blocks index e in (sorted, points)

  unless_past-ok :
      (x : Bool × Sunk) (next : Sunk → Result Sunk (PitError E))
      → ((s : Sunk) → (r : Sunk) × (next s ≡ ok r))
      → (r : Sunk) × (unless_past x next ≡ ok r)
  unless_past-ok (true, s) next k = (s, refl)
  unless_past-ok (false, s) next k = k s

  window_blocks-ok :
      (id t : ℕ) (blocks : List (StoreBlock E)) (s : Sunk)
      → All IsRead blocks
      → (r : Sunk) × (window_blocks id t blocks s ≡ ok r)
  unfolding window_blocks
  window_blocks-ok id t [] s a = (s, refl)
  window_blocks-ok id t (b ∷ blocks) s ((events, read), a) =
      elim (Bool-cases (ltb t b.min_recv_mono)) [
        | inl past ↦ (s, rw past refl)
        | inr before ↦
            let (r, e) =
              unless_past-ok (window_events id t events s) (window_blocks id t blocks)
                (λ s'. window_blocks-ok id t blocks s' a) in
            (r, rw (before, read) e)
      ]

  pit_scan-ok :
      (blocks : List (StoreBlock E)) (e : SnapEntry) (t : ℕ)
      → All IsRead blocks
      → IsPoint blocks e
      → (r : Sunk) × (pit_scan blocks e t ≡ ok r)
  unfolding pit_scan window_from window_at
  pit_scan-ok blocks e t a p =
      let others : All IsRead p.behind =
        (subst (All IsRead) p.at_block (All-drop IsRead e.block_idx blocks a)).1 in
      let (r, w) =
        unless_past-ok (window_events e.instrument t (drop e.event_idx p.events) (0, []))
          (window_blocks e.instrument t p.behind)
          (λ s. window_blocks-ok e.instrument t p.behind s others) in
      (r, rw (p.at_block, p.read, p.at_event, p.same) w)

  -- Where the index that is built of a segment has a snapshot of an instrument up to a time,
  -- `latest_at` finds one of that instrument up to that time which is no earlier, and the scan of the
  -- segment from it succeeds.
  pub pit_scan-latest_at :
      (blocks : List (StoreBlock E)) (index : List SnapEntry) (x : SnapEntry) (t : ℕ)
      → build blocks ≡ ok index
      → Memᴰ x index
      → x.mono ≤ t
      → (e : SnapEntry) × (r : Sunk) × (latest_at index x.instrument t ≡ some e)
        × (e.instrument ≡ x.instrument)
        × (e.mono ≤ t)
        × (x.mono ≤ e.mono)
        × (pit_scan blocks e t ≡ ok r)
  pit_scan-latest_at blocks index x t b m h =
      let (sorted, points, read) = build-parts blocks index b in
      let (e, f, m', same, below, above) = latest_at-found index x t sorted m h in
      let (r, w) = pit_scan-ok blocks e t read (All_member (IsPoint blocks) index e points m') in
      (e, r, f, same, below, above, w)
