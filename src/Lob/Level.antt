-- ===== src/Lob/Level.antt =====
-- The comparison of two best levels in `set_level` (`before != after`).
use flashbook.Prelude.{Bool, true, false, Option, none, some, ◌&&◌}
use flashbook.Prelude.Int.{ℤ, eqb_ℤ}

-- `==` on `Option<(i64, i64)>`
abbrev pub same_level : Option (ℤ × ℤ) → Option (ℤ × ℤ) → Bool
same_level none none = true
same_level (some (p, q)) (some (p', q')) = eqb_ℤ p p' && eqb_ℤ q q'
same_level _ _ = false
