-- ===== src/Bus/Ring/Invariant.antt =====
-- What the slots hold at every point of `Producer::publish`.
use flashbook.Prelude.{
  ℕ, suc, ◌+◌, ◌*◌, ◌/◌, ◌%◌, ◌^◌, ◌≤◌, ◌<◌, ◌≡◌, ◌≢◌, refl, ap, sym, ◌∙◌, arith, false, ltb,
  Bool-cases, inl, inr, lt→ltb, ltb→lt,
}
use flashbook.Prelude.Bits.{bit_and_mask}
use flashbook.Bus.Ring.{
  Words, Slot, Ring, index, update, Publishing, idle, writing, closing, publish_step, word_count,
  new_ring,
}
use flashbook.Bus.Ring.Slots.{apart, next_round}
use native.Mathlib.Nat.{one-le-pow}
use native.Mathlib.Decide.{dec_lt}

pub index-eq-mod : (r : Ring) (s : ℕ) → index r s ≡ s % 2 ^ r.shift
unfolding index
index-eq-mod r s = bit_and_mask r.shift s

abbrev pub size : Ring → ℕ
size r = 2 ^ r.shift

pub size_pos : (r : Ring) → 0 < size r
size_pos r = one-le-pow r.shift 2 (omega arith)

-- The slot of an event.
abbrev pub slot_of : Ring → ℕ → Slot
slot_of r t = r.slots (t % size r)

-- The events whose writing has begun, and those whose slot is done.
abbrev pub started : Publishing → Ring → ℕ
started idle r = r.head
started (writing s v i) r = suc s
started (closing s) r = suc s

abbrev pub done : Publishing → Ring → ℕ
done idle r = r.head
done (writing s v i) r = s
done (closing s) r = suc s

module _ (stream : ℕ → Words) where
  -- The slot that is being written has an odd version, and the first words of its event.
  abbrev pub Busy : Publishing → Ring → Type 0
  Busy idle r = Unit
  Busy (writing s v i) r =
      (s ≡ r.head)
      × (v ≡ s / size r * 2)
      × ((slot_of r s).version ≡ v + 1)
      × (i ≤ word_count)
      × ((k : ℕ) → k < i → (slot_of r s).data_words k ≡ stream s k)
  Busy (closing s) r = s ≡ r.head

  pub record Inv (p : Publishing) (r : Ring) : Type 0 where
    -- A slot that is not being written has the version of the last event in it, as counted by
    -- the next event that is due there.
    pub fresh :
        (t : ℕ) → started p r ≤ t → t < done p r + size r → (slot_of r t).version ≡ t / size r * 2
    -- The events that have not been written over are there.
    pub stored :
        (t k : ℕ)
        → t < done p r
        → started p r ≤ t + size r
        → k < word_count
        → (slot_of r t).data_words k ≡ stream t k
    pub busy : Busy p r

  update_same : {A : Type 0} (f : ℕ → A) (i : ℕ) (a : A) → update f i a i ≡ a
  update_same f i a = ground arith

  update_other : {A : Type 0} (f : ℕ → A) (i j : ℕ) (a : A) → j ≢ i → update f i a j ≡ f j
  update_other f i j a h = ground arith

  -- A write to the slot of `s` leaves the slot of an event less than a round away.
  kept :
      (r : Ring) (s t : ℕ) (x : Slot)
      → s ≢ t
      → s < t + size r
      → t < s + size r
      → update r.slots (s % size r) x (t % size r) ≡ slot_of r t
  kept r s t x n a b = elim (dec_lt s t) [
    | yes l ↦ update_other r.slots _ _ x (apart (size r) s t (size_pos r) l b)
    | no g ↦
        update_other r.slots _ _ x (λ e. apart (size r) t s (size_pos r) (omega arith) a (sym e))
  ]

  next_word :
      (w : Words) (s i k : ℕ)
      → k < i + 1
      → ((j : ℕ) → j < i → w j ≡ stream s j)
      → update w i (stream s i) k ≡ stream s k
  next_word w s i k b words = elim (dec_lt k i) [
    | yes l ↦ update_other w i k _ (omega arith) ∙ words k l
    | no g ↦ let e : k ≡ i = omega arith in rw e (update_same w i (stream s i))
  ]

  begin-Inv :
      (r : Ring) → Inv idle r → Inv (publish_step stream idle r).0 (publish_step stream idle r).1
  unfolding publish_step
  begin-Inv r inv =
      let h = r.head in
      let x = record (slot_of r h) { version = (slot_of r h).version + 1 } in
      let due = inv.fresh h (omega arith) (omega (arith, size_pos r)) in
      rw (index-eq-mod) (record {
        fresh = λ t a b.
            ap (λ y. y.version) (kept r h t x (omega arith) (omega (arith, size_pos r)) b)
            ∙ inv.fresh t (omega arith) b;
        stored = λ t k a b d.
            ap (λ y. y.data_words k) (kept r h t x (omega arith) b (omega (arith, size_pos r)))
            ∙ inv.stored t k a (omega arith) d;
        busy = (
          refl,
          due,
          ap (λ y. y.version) (update_same r.slots (h % size r) x),
          omega arith,
          λ k b. absurd (omega arith),
        );
      })

  word-Inv :
      (s v i : ℕ) (r : Ring)
      → i < word_count
      → Inv (writing s v i) r
      → Inv (publish_step stream (writing s v i) r).0 (publish_step stream (writing s v i) r).1
  unfolding publish_step
  word-Inv s v i r l inv =
      let x = record (slot_of r s) {
        data_words = update (slot_of r s).data_words i (stream s i);
      } in
      let at = update_same r.slots (s % size r) x in
      let (is_head, was, odd, few, words) = inv.busy in
      rw (index-eq-mod, lt→ltb i word_count l)
        (record {
          fresh = λ t a b.
              ap (λ y. y.version) (kept r s t x (omega arith) (omega (arith, size_pos r)) b)
              ∙ inv.fresh t a b;
          stored = λ t k a b d.
              ap (λ y. y.data_words k) (kept r s t x (omega arith) b (omega (arith, size_pos r)))
              ∙ inv.stored t k a b d;
          busy = (
            is_head,
            was,
            ap (λ y. y.version) at ∙ odd,
            omega arith,
            λ k b. ap (λ y. y.data_words k) at ∙ next_word (slot_of r s).data_words s i k b words,
          );
        })

  finish-Inv :
      (s v i : ℕ) (r : Ring)
      → ltb i word_count ≡ false
      → Inv (writing s v i) r
      → Inv (publish_step stream (writing s v i) r).0 (publish_step stream (writing s v i) r).1
  unfolding publish_step
  finish-Inv s v i r l inv =
      let x = record (slot_of r s) { version = v + 2 } in
      let at = update_same r.slots (s % size r) x in
      let (is_head, was, odd, few, words) = inv.busy in
      rw (index-eq-mod, l)
        (record {
          fresh = λ t a b. elim (dec_lt t (s + size r)) [
            | yes c ↦
                ap (λ y. y.version) (kept r s t x (omega arith) (omega (arith, size_pos r)) c)
                ∙ inv.fresh t a c
            | no c ↦
                let e : t ≡ s + size r = omega arith in
                let (slot, round) = next_round (size r) s (size_pos r) in
                ap (λ u. (update r.slots (s % size r) x (u % size r)).version) e
                ∙ ap (λ j. (update r.slots (s % size r) x j).version) slot
                ∙ ap (λ y. y.version) at
                ∙ omega (arith, was, round, ap (λ u. u / size r) e)
          ];
          stored = λ t k a b d. elim (dec_lt t s) [
            | yes c ↦
                ap (λ y. y.data_words k) (kept r s t x (omega arith) (omega arith) (omega arith))
                ∙ inv.stored t k c b d
            | no c ↦
                let e : t ≡ s = omega arith in
                ap (λ u. (update r.slots (s % size r) x (u % size r)).data_words k) e
                ∙ ap (λ y. y.data_words k) at
                ∙ words k (ground arith)
                ∙ ap (λ u. stream u k) (sym e)
          ];
          busy = is_head;
        })

  close-Inv :
      (s : ℕ) (r : Ring)
      → Inv (closing s) r
      → Inv (publish_step stream (closing s) r).0 (publish_step stream (closing s) r).1
  unfolding publish_step
  close-Inv s r inv = record {
    fresh = λ t a b. inv.fresh t (omega arith) (omega arith);
    stored = λ t k a b d. inv.stored t k (omega arith) (omega arith) d;
    busy = tt;
  }

  -- Every access of the producer keeps the invariant.
  pub publish_step-Inv :
      (p : Publishing) (r : Ring)
      → Inv p r
      → Inv (publish_step stream p r).0 (publish_step stream p r).1
  publish_step-Inv idle r inv = begin-Inv r inv
  publish_step-Inv (writing s v i) r inv = elim (Bool-cases (ltb i word_count)) [
    | inl l ↦ word-Inv s v i r (ltb→lt i word_count l) inv
    | inr l ↦ finish-Inv s v i r l inv
  ]
  publish_step-Inv (closing s) r inv = close-Inv s r inv

  pub new_ring-Inv : (shift : ℕ) → Inv idle (new_ring shift)
  new_ring-Inv shift = record {
    fresh = λ t a b. grind arith;
    stored = λ t k a b d. absurd (omega arith);
    busy = tt;
  }
