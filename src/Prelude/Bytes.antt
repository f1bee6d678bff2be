-- ===== src/Prelude/Bytes.antt =====
-- Numbers as little-endian bytes.
use flashbook.Prelude.Lists.{length}
use Prim.Native.Nat.{ℕ, zero, suc, ◌+◌, ◌*◌, ◌/◌, ◌%◌, ◌^◌, ◌<◌}
use mathlib.Core.Path.{◌≡◌, refl}
use mathlib.Core.Bool.{Bool, true, false, ◌&&◌}
use flashbook.Prelude.Tests.{◌==◌}
use mathlib.Core.List.{List, [], ◌∷◌}
use native.Mathlib.Omega.{arith}
use native.Mathlib.Nat.{pow-suc}

-- `v.to_le_bytes()` of a value of `n` bytes.
unfoldable pub le_bytes : ℕ → ℕ → List ℕ
le_bytes zero v = []
le_bytes (suc n) v = (v % 256) ∷ le_bytes n (v / 256)

-- `from_le_bytes`
unfoldable pub from_le_bytes : List ℕ → ℕ
from_le_bytes [] = 0
from_le_bytes (x ∷ b) = x + 256 * from_le_bytes b

pub length-le_bytes : (n v : ℕ) → length (le_bytes n v) ≡ n
unfolding le_bytes
length-le_bytes zero v = refl
length-le_bytes (suc n) v = omega (arith, length-le_bytes n (v / 256))

pub from_le_bytes-le_bytes : (n v : ℕ) → v < 256 ^ n → from_le_bytes (le_bytes n v) ≡ v
unfolding le_bytes from_le_bytes
from_le_bytes-le_bytes zero v h = omega arith
from_le_bytes-le_bytes (suc n) v h =
    let high : v / 256 < 256 ^ n = omega (arith, pow-suc 256 n) in
    omega (arith, from_le_bytes-le_bytes n (v / 256) high)

-- Whether two lists of bytes are equal.
unfoldable pub same_bytes : List ℕ → List ℕ → Bool
same_bytes [] [] = true
same_bytes (x ∷ a) (y ∷ b) = x == y && same_bytes a b
same_bytes _ _ = false

pub same_bytes_refl : (b : List ℕ) → same_bytes b b ≡ true
unfolding same_bytes
same_bytes_refl [] = refl
same_bytes_refl (x ∷ b) = let same : (x == x) ≡ true = ground arith in rw same (same_bytes_refl b)
