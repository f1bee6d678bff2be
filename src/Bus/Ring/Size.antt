-- ===== src/Bus/Ring/Size.antt =====
-- The number of slots that `ring` makes for a capacity, `capacity.max(2).next_power_of_two()`, and
-- its shift (crates/bus/src/ring.rs). A usize has 64 bits.
pub mod Bounds
use flashbook.Prelude.{ℕ, zero, suc, ◌+◌, ◌/◌, ◌%◌, ◌^◌, leb, ◌==◌, if◌then◌else◌}
use flashbook.Prelude.Int.{two_64}
use Prim.Native.Nat.{max}

-- The least exponent from `k` on whose power of two is at least `n`; each round doubles, so `n`
-- rounds are enough.
exponent_from : ℕ → ℕ → ℕ → ℕ
exponent_from zero k n = k
exponent_from (suc rounds) k n =
    let rest = exponent_from rounds (k + 1) n in if leb n (2 ^ k) then k else rest

-- `usize::next_power_of_two`, which wraps around to 0 in a release build.
next_power_of_two : ℕ → ℕ
next_power_of_two n = 2 ^ exponent_from n 0 n % two_64

-- `usize::trailing_zeros`: at most as many as there are bits.
trailing_zeros : ℕ → ℕ → ℕ
trailing_zeros zero n = 0
trailing_zeros (suc bits) n =
    let rest = trailing_zeros bits (n / 2) in if n % 2 == 1 then 0 else suc rest

-- The number of slots.
unfoldable pub capacity_for : ℕ → ℕ
unfolding exponent_from next_power_of_two
capacity_for capacity = next_power_of_two (max capacity 2)

-- The ring's shift.
unfoldable pub shift_for : ℕ → ℕ
unfolding trailing_zeros capacity_for
shift_for capacity = trailing_zeros 64 (capacity_for capacity)
