-- ===== src/Proto/KrakenCrc.antt =====
-- crates/proto/src/kraken_crc.rs: the venue's book checksum. The hasher is `crc32fast`'s, a
-- parameter; of the release build, in which the `debug_assert!`s are not checked.
pub mod Stream
use flashbook.Prelude.{
  ℕ, zero, suc, ◌+◌, ◌-◌, ◌/◌, ◌%◌, ◌^◌, List, [], ◌∷◌, take, ◌==◌, if◌then◌else◌,
}
use flashbook.Proto.Hasher.{Hasher}
use flashbook.Prelude.Int.{ℤ, pos_part}
use Prim.Native.Nat.{min}
use mathlib.Core.List.{foldl}

-- The loop that fills the buffer from its end: a u64 has at most 20 digits.
digits_loop : ℕ → ℕ → List ℕ → List ℕ
digits_loop zero v buf = buf
digits_loop (suc k) v buf =
    let further = digits_loop k (v / 10) ((b'0' + v % 10) ∷ buf) in if v == 0 then buf else further

-- The bytes that a mantissa contributes at `dec` decimals; none for zero.
unfoldable pub scaled_digits : ℤ → ℕ → List ℕ
unfolding digits_loop
scaled_digits m dec = digits_loop 20 (pos_part m / 10 ^ (8 - min dec 8)) []

module _ (hasher : Hasher) where
  -- `update_scaled`: no update for zero.
  unfoldable pub update_scaled : hasher.Digest → ℤ → ℕ → hasher.Digest
  unfolding scaled_digits
  update_scaled h m dec =
      if pos_part m / 10 ^ (8 - min dec 8) == 0 then h else hasher.update h (scaled_digits m dec)

  -- One round of the loops over the levels.
  unfoldable pub update_level : ℕ → ℕ → hasher.Digest → ℤ × ℤ → hasher.Digest
  unfolding update_scaled
  update_level price_dec qty_dec h (price, qty) =
      update_scaled (update_scaled h price price_dec) qty qty_dec

  unfoldable pub kraken_book_crc32 : List (ℤ × ℤ) → List (ℤ × ℤ) → ℕ → ℕ → ℕ
  unfolding update_level
  kraken_book_crc32 asks bids price_dec qty_dec =
      let with_asks = foldl (update_level price_dec qty_dec) hasher.start (take 10 asks) in
      hasher.finalize (foldl (update_level price_dec qty_dec) with_asks (take 10 bids))
