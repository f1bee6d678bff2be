-- ===== src/Proto/Hasher.antt =====
-- The checksum of `crc32fast`, a package that crates/proto and crates/store use: a parameter of what
-- follows, with its documented laws.
pub mod Counting
use flashbook.Prelude.{ℕ, ◌^◌, ◌<◌, List, [], ◌++◌, ◌≡◌}

-- `crc32fast::Hasher`: `new`, `update` and `finalize`.
pub record Hasher : Type 1 where
  pub Digest : Type 0
  pub start : Digest
  pub update : Digest → List ℕ → Digest
  pub finalize : Digest → ℕ

-- The documented law of a streaming hasher: two updates are one with the bytes in a row.
pub record IsStreaming (hasher : Hasher) : Type 0 where
  pub none_added : (d : hasher.Digest) → hasher.update d [] ≡ d
  pub in_a_row :
      (d : hasher.Digest) (a b : List ℕ)
      → hasher.update (hasher.update d a) b ≡ hasher.update d (a ++ b)

-- `crc32fast::hash`
abbrev pub hash : Hasher → List ℕ → ℕ
hash hasher b = hasher.finalize (hasher.update hasher.start b)

-- A streaming hasher whose checksums are u32.
pub record IsCrc32 (hasher : Hasher) : Type 0 where
  pub streaming : IsStreaming hasher
  pub is_u32 : (d : hasher.Digest) → hasher.finalize d < 2 ^ 32
