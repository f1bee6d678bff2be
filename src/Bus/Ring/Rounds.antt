-- ===== src/Bus/Ring/Rounds.antt =====
-- What the version of a slot tells a consumer about the event that it expects there.
use flashbook.Prelude.{
  ℕ, suc, ◌+◌, ◌*◌, ◌/◌, ◌%◌, ◌≤◌, ◌<◌, ◌≡◌, ◌⊎◌, inl, inr, refl, ap, sym, ◌∙◌, arith,
}
use flashbook.Bus.Ring.{Words, Ring, Publishing, idle, writing, closing, expected_version}
use flashbook.Bus.Ring.Slots.{later_round, same_round, next_round, seat, seat_bounds, seat_slot}
use flashbook.Bus.Ring.Invariant.{Inv, size, size_pos, slot_of, started, done}
use native.Mathlib.Decide.{dec_lt, ℕ_discrete}

module _ (c t n : ℕ) (pos : 0 < c) (same : t % c ≡ n % c) where
  round_le : t / c ≤ n / c → t ≤ n
  round_le h = elim (dec_lt n t) [
    | yes l ↦ absurd (omega (arith, later_round c n t pos (sym same) l))
    | no g ↦ omega arith
  ]

  round_eq : t / c ≡ n / c + 1 → t ≡ n + c
  round_eq h =
      let (slot, round) = next_round c n pos in
      same_round c t (n + c) pos (same ∙ sym slot) (h ∙ sym round)

  round_lt : n / c < t / c → n + c ≤ t
  round_lt h = elim (dec_lt t (n + c)) [
    | yes l ↦
        let (slot, round) = next_round c n pos in
        absurd (omega (arith, round, later_round c t (n + c) pos (same ∙ sym slot) l))
    | no g ↦ omega arith
  ]

-- The event whose turn in the slot of `n` the slot's version tells of.
abbrev Turn : (ℕ → Words) → Publishing → Ring → ℕ → ℕ → Type 0
Turn stream p r n t =
    (t % size r ≡ n % size r)
    × (((started p r ≤ t) × (t < done p r + size r) × ((slot_of r n).version ≡ t / size r * 2))
        ⊎ ((suc t ≡ started p r) × (done p r ≡ t) × ((slot_of r n).version ≡ t / size r * 2 + 1)))

module _ (stream : ℕ → Words) where
  seated :
      (p : Publishing) (r : Ring) (n a : ℕ)
      → Inv stream p r
      → started p r ≤ seat (size r) a n
      → seat (size r) a n < done p r + size r
      → (t : ℕ) × Turn stream p r n t
  seated p r n a inv l u =
      let t = seat (size r) a n in
      let slot = seat_slot (size r) a n (size_pos r) in
      (t, (slot, inl (l, u, ap (λ j. (r.slots j).version) (sym slot) ∙ inv.fresh t l u)))

  turn : (p : Publishing) (r : Ring) (n : ℕ) → Inv stream p r → (t : ℕ) × Turn stream p r n t
  turn idle r n inv =
      let (l, u) = seat_bounds (size r) r.head n (size_pos r) in seated idle r n r.head inv l u
  turn (closing s) r n inv =
      let (l, u) = seat_bounds (size r) (suc s) n (size_pos r) in
      seated (closing s) r n (suc s) inv l u
  turn (writing s v i) r n inv =
      let (l, u) = seat_bounds (size r) s n (size_pos r) in
      elim (ℕ_discrete (seat (size r) s n) s) [
        | yes e ↦
            let slot : s % size r ≡ n % size r =
              ap (λ t. t % size r) (sym e) ∙ seat_slot (size r) s n (size_pos r) in
            let (is_head, was, odd, few, words) = inv.busy in
            (
              s,
              (
                slot,
                inr (
                  refl,
                  refl,
                  ap (λ j. (r.slots j).version) (sym slot) ∙ odd ∙ omega (arith, was),
                ),
              ),
            )
        | no e ↦ seated (writing s v i) r n s inv (omega arith) u
      ]

  done-le-started : (p : Publishing) (r : Ring) → done p r ≤ started p r
  done-le-started idle r = omega arith
  done-le-started (writing s v i) r = omega arith
  done-le-started (closing s) r = omega arith

  module _ (p : Publishing) (r : Ring) (n : ℕ) (inv : Inv stream p r) where
    -- A version below the expected one: the event is not published yet.
    pub version_lt : (slot_of r n).version < expected_version r n → done p r ≤ n
    unfolding expected_version
    version_lt h =
        let (t, (slot, state)) = turn p r n inv in
        let below = round_le (size r) t n (size_pos r) slot in
        elim state [
          | inl (l, u, e) ↦ omega (arith, below (omega (arith, e)), done-le-started p r)
          | inr (l, u, e) ↦ omega (arith, below (omega (arith, e)))
        ]

    -- The expected version: the event is there, and nothing is written over it.
    pub version_eq :
        (slot_of r n).version ≡ expected_version r n → (n < done p r) × (started p r ≤ n + size r)
    unfolding expected_version
    version_eq h =
        let (t, (slot, state)) = turn p r n inv in
        elim state [
          | inl (l, u, e) ↦
              let at = round_eq (size r) t n (size_pos r) slot (omega (arith, e)) in
              (omega (arith, at), omega (arith, at))
          | inr (l, u, e) ↦ absurd (omega (arith, e))
        ]

    -- A version above the expected one: the slot has been taken for a later event.
    pub version_gt : expected_version r n < (slot_of r n).version → n + size r < started p r
    unfolding expected_version
    version_gt h =
        let (t, (slot, state)) = turn p r n inv in
        elim state [
          | inl (l, u, e) ↦
              let (next_slot, round) = next_round (size r) n (size_pos r) in
              omega (
                arith,
                round_lt (size r) t (n + size r) (size_pos r) (slot ∙ sym next_slot)
                    (omega (arith, e, round)),
                done-le-started p r,
              )
          | inr (l, u, e) ↦
              omega (arith, round_lt (size r) t n (size_pos r) slot (omega (arith, e)))
        ]
