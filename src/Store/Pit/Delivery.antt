-- ===== src/Store/Pit/Delivery.antt =====
-- crates/store/src/pit.rs: exactly which events `pit_scan` gives to its sink.
use flashbook.Prelude.{
  ℕ, ◌+◌, ◌≤◌, ◌<◌, ◌≡◌, refl, sym, ap, ap₂, ◌∙◌, arith, true, false, List, [], ◌∷◌, ◌++◌, length,
  drop, ltb, leb, ◌==◌, ◌&&◌, if◌then◌else◌, Bool-cases, inl, inr, All, Result, ok, err,
}
use flashbook.Proto.Event.{Event}
use flashbook.Store.Pit.{PitError, SnapEntry, StoreBlock}
use flashbook.Store.Pit.Points.{IsPoint}
use flashbook.Store.Pit.Window.{
  Sunk, sink, window_events, unless_past, window_blocks, window_at, window_from, pit_scan,
}
use mathlib.Core.Path.{subst}
use mathlib.Core.List.{append_assoc, append-nil}

-- The events of an instrument up to a time.
abbrev pub in_window : ℕ → ℕ → List Event → List Event
in_window id t [] = []
in_window id t (e ∷ es) =
    if e.instrument == id && leb e.recv_mono_ns t then e ∷ in_window id t es else in_window id t es

-- `recv_mono_ns` never falls.
abbrev pub IsRising : List Event → Type 0
IsRising [] = Unit {0}
IsRising (e ∷ es) = All (λ (f : Event). e.recv_mono_ns ≤ f.recv_mono_ns) es × IsRising es

push : Sunk → List Event → Sunk
push (n, sunk) w = (n + length w, sunk ++ w)

push_nil : (s : Sunk) → push s [] ≡ s
unfolding push
push_nil (n, sunk) = ap₂ (λ k l. (k, l)) (omega arith) (append-nil sunk)

in_window_past :
    (id t m : ℕ) (es : List Event)
    → t < m
    → All (λ (e : Event). m ≤ e.recv_mono_ns) es
    → in_window id t es ≡ []
in_window_past id t m [] h a = refl
in_window_past id t m (e ∷ es) h a =
    let out : (e.instrument == id && leb e.recv_mono_ns t) ≡ false = ground (arith, a.0) in
    rw out (in_window_past id t m es h a.1)

push-sink :
    (id t : ℕ) (e : Event) (es : List Event) (s : Sunk)
    → ltb t e.recv_mono_ns ≡ false
    → push (sink id e s) (in_window id t es) ≡ push s (in_window id t (e ∷ es))
unfolding push
push-sink id t e es (n, sunk) h =
    let up_to : leb e.recv_mono_ns t ≡ true = ground (arith, h) in
    elim (Bool-cases (e.instrument == id)) [
      | inl same ↦
          rw (same, up_to)
            (ap₂ (λ k l. (k, l)) (omega arith) (append_assoc sunk (e ∷ []) (in_window id t es)))
      | inr other ↦ rw other refl
    ]

IsRising-append : (xs ys : List Event) → IsRising (xs ++ ys) → IsRising ys
IsRising-append [] ys r = r
IsRising-append (x ∷ xs) ys r = IsRising-append xs ys r.1

module _ {E : Type 0} where
  window_events-in_window :
      (id t : ℕ) (es rest : List Event) (s : Sunk) (next : Sunk → Result Sunk (PitError E))
      → IsRising (es ++ rest)
      → ((s : Sunk) → next s ≡ ok (push s (in_window id t rest)))
      → unless_past (window_events id t es s) next ≡ ok (push s (in_window id t (es ++ rest)))
  unfolding window_events
  window_events-in_window id t [] rest s next r k = k s
  window_events-in_window id t (e ∷ es) rest s next r k = elim (Bool-cases (ltb t e.recv_mono_ns)) [
    | inl past ↦
        let later : t < e.recv_mono_ns = ground (arith, past) in
        let none_left : in_window id t (e ∷ (es ++ rest)) ≡ [] =
          in_window_past id t e.recv_mono_ns (e ∷ (es ++ rest)) later (omega arith, r.0) in
        rw past (ap ok (sym (push_nil s) ∙ ap (push s) (sym none_left)))
    | inr before ↦ rw before (
        window_events-in_window id t es rest (sink id e s) next r.1 k
        ∙ ap ok (push-sink id t e (es ++ rest) s before))
  ]

  -- The events of the blocks, one behind the other.
  abbrev pub events_in : Result (List Event) E → List Event
  events_in (ok events) = events
  events_in (err e) = []

  abbrev pub events_of : List (StoreBlock E) → List Event
  events_of [] = []
  events_of (b ∷ blocks) = events_in b.decoded ++ events_of blocks

  -- Every block is decoded, and its range in the directory starts at or before every event that
  -- follows.
  abbrev pub IsDirectory : List (StoreBlock E) → Type 0
  IsDirectory [] = Unit {0}
  IsDirectory (b ∷ blocks) =
      ((events : List Event) × (b.decoded ≡ ok events))
      × All (λ (e : Event). b.min_recv_mono ≤ e.recv_mono_ns) (events_of (b ∷ blocks))
      × IsDirectory blocks

  window_blocks-in_window :
      (id t : ℕ) (blocks : List (StoreBlock E)) (s : Sunk)
      → IsDirectory blocks
      → IsRising (events_of blocks)
      → window_blocks id t blocks s ≡ ok (push s (in_window id t (events_of blocks)))
  unfolding window_blocks
  window_blocks-in_window id t [] s d r = ap ok (sym (push_nil s))
  window_blocks-in_window id t (b ∷ blocks) s ((events, read), low, d) r =
      elim (Bool-cases (ltb t b.min_recv_mono)) [
        | inl past ↦
            let later : t < b.min_recv_mono = ground (arith, past) in
            rw past (
              ap ok (
                sym (push_nil s)
                ∙ ap (push s)
                    (sym (in_window_past id t b.min_recv_mono (events_of (b ∷ blocks)) later low))))
        | inr before ↦
            let r' : IsRising (events ++ events_of blocks) =
              subst (λ x. IsRising (events_in x ++ events_of blocks)) read r in
            rw (before, read)
              (window_events-in_window id t events (events_of blocks) s (window_blocks id t blocks)
                r'
                (λ s'.
                  window_blocks-in_window id t blocks s' d
                    (IsRising-append events (events_of blocks) r')))
      ]

  -- In a segment whose times never fall, and whose directory is right, the scan from an entry that
  -- points at its `SnapBegin` gives the sink exactly the events of that instrument up to the time,
  -- from the `SnapBegin` on, in the order of the segment, and returns their number.
  pub pit_scan-in_window :
      (blocks : List (StoreBlock E)) (entry : SnapEntry) (t : ℕ) (p : IsPoint blocks entry)
      → IsRising (drop entry.event_idx p.events ++ events_of p.behind)
      → IsDirectory p.behind
      → pit_scan blocks entry t
        ≡ ok (
          length
              (in_window entry.instrument t (drop entry.event_idx p.events ++ events_of p.behind)),
          in_window entry.instrument t (drop entry.event_idx p.events ++ events_of p.behind),
        )
  unfolding pit_scan window_from window_at push
  pit_scan-in_window blocks entry t p r d =
      let first = drop entry.event_idx p.events in
      rw (p.at_block, p.read, p.at_event, p.same)
        (window_events-in_window entry.instrument t first (events_of p.behind) (0, [])
            (window_blocks entry.instrument t p.behind) r
            (λ s.
              window_blocks-in_window entry.instrument t p.behind s d
                (IsRising-append first (events_of p.behind) r))
          ∙ ap (λ n. ok (n, in_window entry.instrument t (first ++ events_of p.behind)))
              (omega arith))
