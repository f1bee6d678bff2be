-- ===== src/Bus/Ring/Received.antt =====
-- Every poll of the consumer, under every interleaving with the producer.
use flashbook.Prelude.{
  ℕ, ◌+◌, ◌≤◌, ◌<◌, ◌≡◌, inl, inr, refl, ap, arith, List, [], ◌∷◌, ltb, Bool-cases, ltb→lt, lt→ltb,
  eq→==, ltb_no, ==_no,
}
use flashbook.Bus.Ring.{
  Words, Ring, System, Publishing, idle, writing, closing, lagged, Polling, ready, copying, lapped,
  expected_version, word_count, produce, poll_step, poll, answer, lost, mask, run, Thread, producer,
  consumer, update, subscribe,
}
use flashbook.Bus.Ring.Invariant.{Inv, size, size_pos, slot_of, started, index-eq-mod}
use flashbook.Bus.Ring.Rounds.{version_eq, version_gt}
use flashbook.Bus.Ring.Delivery.{Accounts, Sound, Copied, produce-Sound}
use native.Mathlib.Decide.{dec_lt, ℕ_discrete}
use mathlib.Core.Path.{subst}

module _ (stream : ℕ → Words) where
  -- A whole copy under an unchanged version is the event.
  ready-Sound :
      (start : ℕ) (s : System) → Sound stream start s → Sound stream start (poll_step ready s)
  unfolding poll_step answer
  ready-Sound start s h = elim (dec_lt v want) [
    | yes l ↦
        rw (index-eq-mod, lt→ltb v want l)
          (record { inv = h.inv; copied = tt; accounts = Accounts.none_yet h.accounts })
    | no g ↦ elim (ℕ_discrete v want) [
      | yes e ↦
          rw (index-eq-mod, ltb_no v want g, eq→== v want e)
            (record {
              inv = h.inv;
              copied = (omega (arith, e), λ _ k b. absurd (omega arith));
              accounts = h.accounts;
            })
      | no e ↦
          rw (index-eq-mod, ltb_no v want g, ==_no v want e)
            (record { inv = h.inv; copied = omega (arith, g, e); accounts = h.accounts })
    ]
  ]
    where
      v : ℕ
      v = (slot_of s.ring s.next).version

      want : ℕ
      want = expected_version s.ring s.next

  copied_word :
      (s : System) (i : ℕ) (words : Words)
      → Inv stream s.publishing s.ring
      → i < word_count
      → ((slot_of s.ring s.next).version ≡ expected_version s.ring s.next
          → (k : ℕ) → k < i
          → words k ≡ stream s.next k)
      → (slot_of s.ring s.next).version ≡ expected_version s.ring s.next
      → (k : ℕ) → k < i + 1
      → update words i ((slot_of s.ring s.next).data_words i) k ≡ stream s.next k
  copied_word s i words inv l old e k b = elim (ℕ_discrete k i) [
    | yes q ↦
        let (published, kept) = version_eq stream s.publishing s.ring s.next inv e in
        rw (q, eq→== i i refl) (inv.stored s.next i published kept l)
    | no q ↦ rw (==_no k i q) (old e k (omega arith))
  ]

  copying-Sound :
      (start i : ℕ) (words : Words) (s : System)
      → s.polling ≡ copying i words
      → Sound stream start s
      → Sound stream start (poll_step (copying i words) s)
  unfolding poll_step answer
  copying-Sound start i words s at h = elim (Bool-cases (ltb i word_count)) [
    | inl l ↦
        rw (index-eq-mod, l)
          (record {
            inv = h.inv;
            copied = (known.0, copied_word s i words h.inv (ltb→lt i word_count l) known.1);
            accounts = h.accounts;
          })
    | inr l ↦ elim (ℕ_discrete v want) [
      | yes e ↦
          rw (index-eq-mod, l, eq→== v want e)
            (record {
              inv = h.inv;
              copied = tt;
              accounts = Accounts.got words h.accounts (λ k b. known.1 e k (ground arith));
            })
      | no e ↦
          rw (index-eq-mod, l, ==_no v want e)
            (record { inv = h.inv; copied = omega (arith, known.0, e); accounts = h.accounts })
    ]
  ]
    where
      v : ℕ
      v = (slot_of s.ring s.next).version

      want : ℕ
      want = expected_version s.ring s.next

      known : Copied stream (copying i words) s.ring s.next
      known = subst (λ c. Copied stream c s.ring s.next) at h.copied

  lapped-Sound :
      (start : ℕ) (s : System) → Sound stream start s → Sound stream start (poll_step lapped s)
  unfolding poll_step answer lost
  lapped-Sound start s h = record {
    inv = h.inv;
    copied = tt;
    accounts = Accounts.missed _ _ h.accounts (omega arith) refl;
  }

  polled-Sound :
      (start : ℕ) (c : Polling) (s : System)
      → s.polling ≡ c
      → Sound stream start s
      → Sound stream start (poll_step c s)
  polled-Sound start ready s at h = ready-Sound start s h
  polled-Sound start (copying i words) s at h = copying-Sound start i words s at h
  polled-Sound start lapped s at h = lapped-Sound start s h

  poll-Sound : (start : ℕ) (s : System) → Sound stream start s → Sound stream start (poll s)
  unfolding poll
  poll-Sound start s h = polled-Sound start s.polling s refl h

  pub run-Sound :
      (start : ℕ) (schedule : List Thread) (s : System)
      → Sound stream start s
      → Sound stream start (run stream schedule s)
  unfolding run
  run-Sound start [] s h = h
  run-Sound start (producer ∷ schedule) s h =
      run-Sound start schedule (produce stream s) (produce-Sound stream start s h)
  run-Sound start (consumer ∷ schedule) s h =
      run-Sound start schedule (poll s) (poll-Sound start s h)

-- A consumer that subscribes to a ring at rest accounts for every event from then on, however its
-- accesses interleave with the producer's: each poll returned either the next event in order, with
-- all 8 words as they were published (no torn read, nothing twice, nothing out of order), or that
-- nothing is there, or a count of at least 1 by which the cursor moved on.
pub run-Accounts :
    (stream : ℕ → Words) (schedule : List Thread) (r : Ring)
    → Inv stream idle r
    → Accounts stream r.head
        (run stream schedule (subscribe r)).received
        (run stream schedule (subscribe r)).next
run-Accounts stream schedule r inv =
    (run-Sound stream r.head schedule (subscribe r)
      (record { inv = inv; copied = tt; accounts = Accounts.nothing })).accounts

head-le-started :
    (stream : ℕ → Words) (p : Publishing) (r : Ring) → Inv stream p r → r.head ≤ started p r
head-le-started stream idle r inv = omega arith
head-le-started stream (writing s v i) r inv = omega (arith, inv.busy.0)
head-le-started stream (closing s) r inv = omega (arith, inv.busy)

skipped :
    (stream : ℕ → Words) (start : ℕ) (s : System)
    → Sound stream start s
    → s.polling ≡ lapped
    → s.next + lost s.ring.head (mask s.ring + 1) s.next + size s.ring ≤ started s.publishing s.ring
unfolding lost
skipped stream start s h at =
    let taken : Copied stream lapped s.ring s.next =
      subst (λ c. Copied stream c s.ring s.next) at h.copied in
    let gone = version_gt stream s.publishing s.ring s.next h.inv taken in
    omega (arith, gone, head-le-started stream s.publishing s.ring h.inv, size_pos s.ring)

-- When a poll reports a loss of `k` events, after any interleaving of a consumer that subscribed to
-- a ring at rest, the cursor moves on by `k`, and the slot of the last event it skips, so of each of
-- them, has been taken for an event a whole ring later.
pub lagged_lost :
    (stream : ℕ → Words) (schedule : List Thread) (r : Ring)
    → Inv stream idle r
    → (run stream schedule (subscribe r)).polling ≡ lapped
    → (k : ℕ) × (poll (run stream schedule (subscribe r))
        ≡ answer
            (lagged k)
            ((run stream schedule (subscribe r)).next + k)
            (run stream schedule (subscribe r)))
      × ((run stream schedule (subscribe r)).next
            + k
            + size (run stream schedule (subscribe r)).ring
          ≤ started
              (run stream schedule (subscribe r)).publishing
              (run stream schedule (subscribe r)).ring)
lagged_lost stream schedule r inv at =
    let s = run stream schedule (subscribe r) in
    let sound =
      run-Sound stream r.head schedule (subscribe r)
        (record { inv = inv; copied = tt; accounts = Accounts.nothing }) in
    (
      lost s.ring.head (mask s.ring + 1) s.next,
      unfold poll poll_step in ap (λ c. poll_step c s) at,
      skipped stream r.head s sound at,
    )
