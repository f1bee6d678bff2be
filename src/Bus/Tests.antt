-- ===== src/Bus/Tests.antt =====
-- Concrete schedules of the ring, and the theorems at concrete inputs.
use flashbook.Prelude.{
  ℕ, zero, suc, ◌+◌, ◌*◌, ◌^◌, ◌⊎◌, arith, ◌≤◌, ◌<◌, ◌≡◌, refl, List, [], ◌∷◌, ◌++◌,
}
use flashbook.Bus.Ring.{
  Words, Thread, producer, consumer, run, poll, lapped, lagged, answer, new_ring, subscribe, index,
  expected_version,
}
use flashbook.Bus.Ring.Invariant.{new_ring-Inv, size, started}
use flashbook.Bus.Ring.Delivery.{Accounts}
use flashbook.Bus.Ring.Size.{capacity_for, shift_for}
use flashbook.Bus.Ring.Size.Bounds.{capacity_for_bounds}
use flashbook.Bus.Ring.Received.{run-Accounts, lagged_lost}

abbrev numbered : ℕ → Words
numbered s i = s * 10 + i

abbrev times : {A : Type 0} → ℕ → A → List A
times zero a = []
times (suc n) a = a ∷ times n a

-- One publish is 11 accesses; then the consumer polls an event in 10.
abbrev one_event : List Thread
one_event = times 11 producer ++ times 10 consumer

-- Three events into two slots lap the consumer, which sees it at once.
abbrev overrun : List Thread
overrun = times 33 producer ++ (consumer ∷ [])

one_event_cursor : (run numbered one_event (subscribe (new_ring 1))).next ≡ 1
unfolding run index expected_version
one_event_cursor = refl

overrun_lapped : (run numbered overrun (subscribe (new_ring 1))).polling ≡ lapped
unfolding run index expected_version
overrun_lapped = refl

run-Accounts_example :
    Accounts numbered 0
      (run numbered one_event (subscribe (new_ring 1))).received
      (run numbered one_event (subscribe (new_ring 1))).next
run-Accounts_example = run-Accounts numbered one_event (new_ring 1) (new_ring-Inv numbered 1)

lagged_lost_example :
    (k : ℕ) × (poll (run numbered overrun (subscribe (new_ring 1)))
      ≡ answer
          (lagged k)
          ((run numbered overrun (subscribe (new_ring 1))).next + k)
          (run numbered overrun (subscribe (new_ring 1))))
    × ((run numbered overrun (subscribe (new_ring 1))).next
          + k
          + size (run numbered overrun (subscribe (new_ring 1))).ring
        ≤ started
            (run numbered overrun (subscribe (new_ring 1))).publishing
            (run numbered overrun (subscribe (new_ring 1))).ring)
lagged_lost_example =
    lagged_lost numbered overrun (new_ring 1) (new_ring-Inv numbered 1) overrun_lapped

-- Five slots become eight, and one more than the largest power of two becomes none.
five_slots : capacity_for 5 ≡ 8
unfolding capacity_for
five_slots = refl

five_shift : shift_for 5 ≡ 3
unfolding shift_for
five_shift = refl

too_many_slots : capacity_for (2 ^ 63 + 1) ≡ 0
unfolding capacity_for
too_many_slots = refl

capacity_for_bounds_example :
    ((5 ≤ 2 ^ 63)
      × (5 ≤ capacity_for 5)
      × (capacity_for 5 < 10)
      × (capacity_for 5 ≡ 2 ^ shift_for 5)
      × (shift_for 5 < 64))
    ⊎ ((2 ^ 63 < 5) × (capacity_for 5 ≡ 0) × (shift_for 5 ≡ 64))
capacity_for_bounds_example = capacity_for_bounds 5 (omega arith)
