-- ===== src/Bus/Ring/Delivery.antt =====
-- What a consumer receives, under every interleaving with the producer.
use flashbook.Prelude.{
  ℕ, ◌+◌, ◌%◌, ◌≤◌, ◌<◌, ◌≡◌, inl, inr, refl, arith, List, [], ◌∷◌, ◌++◌, ltb, ◌==◌, Bool-cases,
  ==→eq,
}
use flashbook.Bus.Ring.{
  Words, Slot, Ring, System, Publishing, idle, writing, closing, Recv, event, empty, lagged,
  Polling, ready, copying, lapped, expected_version, word_count, publish_step, produce, update,
}
use flashbook.Bus.Ring.Invariant.{Inv, size, slot_of, index-eq-mod, publish_step-Inv}

raised :
    (f : ℕ → Slot) (i j : ℕ) (x : Slot)
    → (f i).version ≤ x.version
    → (f j).version ≤ (update f i x j).version
raised f i j x h = elim (Bool-cases (j == i)) [
  | inl e ↦ rw e (rw (==→eq j i e) h)
  | inr e ↦ rw e (omega arith)
]

module _ (stream : ℕ → Words) where
  -- The words are those of event `n`.
  abbrev pub IsEvent : ℕ → Words → Type 0
  IsEvent n words = (k : ℕ) → k < word_count → words k ≡ stream n k

  -- What the polls returned accounts for every event from `start` up to the cursor: each is
  -- received whole and in its turn, or counted as lost.
  pub data Accounts (start : ℕ) : List Recv → ℕ → Type 0 where
    nothing : Accounts start [] start
    got :
        {log : List Recv} {n : ℕ} (words : Words)
        → Accounts start log n
        → IsEvent n words
        → Accounts start (log ++ (event words ∷ [])) ((n + 1))
    none_yet :
        {log : List Recv} {n : ℕ} → Accounts start log n → Accounts start (log ++ (empty ∷ [])) n
    missed :
        {log : List Recv} {n : ℕ} (k m : ℕ)
        → Accounts start log n
        → 1 ≤ k
        → m ≡ n + k
        → Accounts start (log ++ (lagged k ∷ [])) m

  -- The words copied so far are the event's, as long as the slot's version is still the expected
  -- one; and a slot that was found overwritten stays so.
  abbrev pub Copied : Polling → Ring → ℕ → Type 0
  Copied ready r n = Unit
  Copied (copying i words) r n =
      (expected_version r n ≤ (slot_of r n).version)
      × ((slot_of r n).version ≡ expected_version r n → (k : ℕ) → k < i → words k ≡ stream n k)
  Copied lapped r n = expected_version r n < (slot_of r n).version

  pub record Sound (start : ℕ) (s : System) : Type 0 where
    pub inv : Inv stream s.publishing s.ring
    pub copied : Copied s.polling s.ring s.next
    pub accounts : Accounts start s.received s.next

  -- The producer only raises versions, and writes words only while a version is odd.
  version-grows :
      (p : Publishing) (r : Ring) (n : ℕ)
      → Inv stream p r
      → (slot_of r n).version ≤ (slot_of (publish_step stream p r).1 n).version
  unfolding publish_step
  version-grows idle r n inv =
      rw index-eq-mod (raised r.slots (r.head % size r) (n % size r) _ (omega arith))
  version-grows (writing s v i) r n inv = elim (Bool-cases (ltb i word_count)) [
    | inl l ↦ rw (index-eq-mod, l) (raised r.slots (s % size r) (n % size r) _ (omega arith))
    | inr l ↦
        let (is_head, was, odd, few, words) = inv.busy in
        rw (index-eq-mod, l) (raised r.slots (s % size r) (n % size r) _ (omega (arith, odd)))
  ]
  version-grows (closing s) r n inv = omega arith

  expected-kept :
      (p : Publishing) (r : Ring) (n : ℕ)
      → expected_version (publish_step stream p r).1 n ≡ expected_version r n
  unfolding publish_step expected_version
  expected-kept idle r n = refl
  expected-kept (writing s v i) r n = ground arith
  expected-kept (closing s) r n = refl

  size-kept :
      (p : Publishing) (r : Ring) (n : ℕ) → n % size (publish_step stream p r).1 ≡ n % size r
  unfolding publish_step
  size-kept idle r n = refl
  size-kept (writing s v i) r n = ground arith
  size-kept (closing s) r n = refl

  -- An access of the producer does not disturb what the consumer knows.
  produce-Copied :
      (c : Polling) (p : Publishing) (r : Ring) (n : ℕ)
      → Inv stream p r
      → Copied c r n
      → Copied c (publish_step stream p r).1 n
  produce-Copied ready p r n inv h = tt
  produce-Copied (copying i words) p r n inv h =
      let grows = version-grows p r n inv in
      let same = expected-kept p r n in
      (omega (arith, grows, same, h.0), λ e. h.1 (omega (arith, e, grows, same, h.0)))
  produce-Copied lapped p r n inv h = omega (arith, version-grows p r n inv, expected-kept p r n)

  pub produce-Sound : (start : ℕ) (s : System) → Sound start s → Sound start (produce stream s)
  unfolding produce
  produce-Sound start s h = record {
    inv = publish_step-Inv stream s.publishing s.ring h.inv;
    copied = produce-Copied s.polling s.publishing s.ring s.next h.inv h.copied;
    accounts = h.accounts;
  }
