-- ===== src/Bus/Ring/Slots.antt =====
-- Which sequence numbers share a slot of a ring of `c` slots, and how their rounds compare.
use flashbook.Prelude.{ℕ, ◌+◌, ◌-◌, ◌*◌, ◌/◌, ◌%◌, ◌≤◌, ◌<◌, ◌≡◌, ◌≢◌, ap, sym, ◌∙◌, arith}
use native.Mathlib.Nat.{div-add-mod, mod-lt, add-mod-mod, mod-mod, add-mul-mod_self_left}

-- A later number in the same slot belongs to a later round.
pub later_round : (c m n : ℕ) → 0 < c → m % c ≡ n % c → m < n → m / c + 1 ≤ n / c
later_round c m n h e l = grind (arith, div-add-mod m c, div-add-mod n c)

pub same_round : (c m n : ℕ) → 0 < c → m % c ≡ n % c → m / c ≡ n / c → m ≡ n
same_round c m n h e q = sym (div-add-mod m c) ∙ cc (div-add-mod n c)

-- The number in the window of `c` numbers from `a` on that shares a slot with `n`.
pub seat : ℕ → ℕ → ℕ → ℕ
seat c a n = a + (n % c + c - a % c) % c

pub seat_bounds : (c a n : ℕ) → 0 < c → (a ≤ seat c a n) × (seat c a n < a + c)
unfolding seat
seat_bounds c a n h = (omega arith, omega (arith, mod-lt))

pub seat_slot : (c a n : ℕ) → 0 < c → seat c a n % c ≡ n % c
unfolding seat
seat_slot c a n h =
    let sum : a + (n % c + c - a % c) ≡ n % c + c * (a / c + 1) =
      omega (arith, div-add-mod a c, mod-lt a h) in
    add-mod-mod a (n % c + c - a % c) c
    ∙ ap (λ t. t % c) sum
    ∙ add-mul-mod_self_left (n % c) c (a / c + 1)
    ∙ mod-mod n c

pub next_round : (c n : ℕ) → 0 < c → ((n + c) % c ≡ n % c) × ((n + c) / c ≡ n / c + 1)
next_round c n h = (grind arith, grind arith)

-- Two numbers less than a round apart have different slots.
pub apart : (c m n : ℕ) → 0 < c → m < n → n < m + c → n % c ≢ m % c
apart c m n h l u e =
    let (slot, round) = next_round c m h in
    omega (arith, later_round c m n h (sym e) l, later_round c n (m + c) h (e ∙ sym slot) u)
