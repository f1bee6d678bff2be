-- ===== src/Proto/Hasher/Counting.antt =====
-- An instance of the checksum's interface, which keeps the laws: the theorems are tried with it.
use flashbook.Prelude.{ℕ, ◌%◌, ◌^◌, List, [], ◌++◌, length, arith}
use flashbook.Proto.Hasher.{Hasher, IsStreaming, IsCrc32}
use mathlib.Core.List.{append_assoc, append-nil}

-- A hasher that keeps the bytes, and answers with their number as a u32.
abbrev pub counting : Hasher
counting = record {
  Digest = List ℕ;
  start = [];
  update = λ d b. d ++ b;
  finalize = λ d. length d % 2 ^ 32;
}

pub counting-IsStreaming : IsStreaming counting
counting-IsStreaming = record {
  none_added = λ d. append-nil d;
  in_a_row = λ d a b. append_assoc d a b;
}

pub counting-IsCrc32 : IsCrc32 counting
counting-IsCrc32 = record { streaming = counting-IsStreaming; is_u32 = λ d. omega arith }
