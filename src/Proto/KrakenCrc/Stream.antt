-- ===== src/Proto/KrakenCrc/Stream.antt =====
-- crates/proto/src/kraken_crc.rs: the bytes that the checksum is taken over.
use flashbook.Prelude.{
  ℕ, ◌-◌, ◌/◌, ◌^◌, List, [], ◌∷◌, ◌++◌, take, ◌==◌, ◌≡◌, refl, sym, ap, ◌∙◌, Bool-cases, inl, inr,
}
use flashbook.Proto.Hasher.{Hasher, IsStreaming}
use flashbook.Prelude.Int.{ℤ, pos_part}
use flashbook.Proto.KrakenCrc.{scaled_digits, update_scaled, update_level, kraken_book_crc32}
use Prim.Native.Nat.{min}
use mathlib.Core.List.{foldl}

-- The digits of the levels, price and quantity in turn, without points and leading zeros.
abbrev pub level_digits : ℕ → ℕ → List (ℤ × ℤ) → List ℕ
level_digits price_dec qty_dec [] = []
level_digits price_dec qty_dec ((price, qty) ∷ levels) =
    scaled_digits price price_dec
    ++ (scaled_digits qty qty_dec ++ level_digits price_dec qty_dec levels)

module _ (hasher : Hasher) (laws : IsStreaming hasher) where
  update_scaled-eq :
      (d : hasher.Digest) (m : ℤ) (dec : ℕ)
      → update_scaled hasher d m dec ≡ hasher.update d (scaled_digits m dec)
  unfolding update_scaled scaled_digits
  update_scaled-eq d m dec = elim (Bool-cases (pos_part m / 10 ^ (8 - min dec 8) == 0)) [
    | inl e ↦ rw e (sym (laws.none_added d))
    | inr e ↦ rw e refl
  ]

  foldl-update_level :
      (levels : List (ℤ × ℤ)) (price_dec qty_dec : ℕ) (d : hasher.Digest)
      → foldl (update_level hasher price_dec qty_dec) d levels
        ≡ hasher.update d (level_digits price_dec qty_dec levels)
  unfolding update_level
  foldl-update_level [] price_dec qty_dec d = sym (laws.none_added d)
  foldl-update_level ((price, qty) ∷ levels) price_dec qty_dec d =
      foldl-update_level levels price_dec qty_dec _
      ∙ ap (λ h. hasher.update h (level_digits price_dec qty_dec levels))
          (update_scaled-eq _ qty qty_dec
            ∙ ap (λ h. hasher.update h (scaled_digits qty qty_dec))
                (update_scaled-eq d price price_dec))
      ∙ laws.in_a_row _ _ _
      ∙ laws.in_a_row _ _ _

  -- For a streaming hasher (an empty update changes nothing, and two updates are one with the bytes
  -- in a row), the checksum of a book is that of one update with the digits of the first ten asks
  -- and then of the first ten bids, all in a row.
  pub kraken_book_crc32-digits :
      (asks bids : List (ℤ × ℤ)) (price_dec qty_dec : ℕ)
      → kraken_book_crc32 hasher asks bids price_dec qty_dec
        ≡ hasher.finalize (
            hasher.update hasher.start (
              level_digits price_dec qty_dec (take 10 asks)
              ++ level_digits price_dec qty_dec (take 10 bids)))
  unfolding kraken_book_crc32
  kraken_book_crc32-digits asks bids price_dec qty_dec = ap hasher.finalize (
      foldl-update_level (take 10 bids) price_dec qty_dec _
      ∙ ap (λ h. hasher.update h (level_digits price_dec qty_dec (take 10 bids)))
          (foldl-update_level (take 10 asks) price_dec qty_dec hasher.start)
      ∙ laws.in_a_row _ _ _)
