-- ===== src/Store/Varint/Uvarint.antt =====
-- The LEB128 varints: what `put_uvarint` appends and what `take_uvarint` reads.
use flashbook.Prelude.{
  ℕ, zero, suc, ◌+◌, ◌*◌, ◌/◌, ◌%◌, ◌^◌, ◌≤◌, ◌<◌, ◌≡◌, ap, ◌∙◌, arith, some, List, [], ◌∷◌, ◌++◌,
  length, ltb, Bool-cases, inl, inr,
}
use flashbook.Prelude.Int.{IsU64, two_64}
use flashbook.Prelude.Bits.{low_bits, top_bit, set_top_bit, bit_or_shifted}
use flashbook.Store.Varint.{put_rounds, put_uvarint, take_loop, take_uvarint}
use mathlib.Core.List.{append_assoc}
use native.Mathlib.Nat.{pow-suc}
use native.Mathlib.Numerals.{towards_suc}
use Prim.Native.Nat.{bit_and, bit_or}

put_rounds-append :
    (k : ℕ) (xs out : List ℕ) (v : ℕ) → put_rounds k (xs ++ out) v ≡ xs ++ put_rounds k out v
unfolding put_rounds
put_rounds-append zero xs out v = append_assoc xs out _
put_rounds-append (suc k) xs out v = elim (Bool-cases (ltb v 0x80)) [
  | inl e ↦ rw e (append_assoc xs out _)
  | inr e ↦
      rw (e, append_assoc)
        (put_rounds-append k xs (out ++ (bit_or (v % 256) 0x80 ∷ [])) (v / 2 ^ 7))
]

-- What was written before stays.
pub put_uvarint-append :
    (xs out : List ℕ) (v : ℕ) → put_uvarint (xs ++ out) v ≡ xs ++ put_uvarint out v
unfolding put_uvarint
put_uvarint-append xs out v = put_rounds-append 9 xs out v

-- The group of a byte, put in at `shift`.
put_group :
    (g b v shift : ℕ)
    → bit_and b 0x7f ≡ g
    → v < 2 ^ shift
    → IsU64 (v + g * 2 ^ shift)
    → bit_or v (bit_and b 0x7f * 2 ^ shift % two_64) ≡ v + g * 2 ^ shift
put_group g b v shift e hv fits =
    let no_wrap : g * 2 ^ shift % two_64 ≡ g * 2 ^ shift = omega arith in
    rw (e, no_wrap) (bit_or_shifted shift g v hv)

-- A last byte, and a byte with more to come, over the group `g`.
take_last :
    (g v shift : ℕ) (rest : List ℕ)
    → g < 128
    → v < 2 ^ shift
    → IsU64 (v + g * 2 ^ shift)
    → take_loop (g ∷ rest) v shift ≡ some (v + g * 2 ^ shift, rest)
unfolding take_loop
take_last g v shift rest hg hv fits =
    ground (arith, low_bits g, top_bit g, put_group g g v shift (omega (arith, low_bits g)) hv fits)

take_more :
    (g v shift : ℕ) (rest : List ℕ)
    → g < 128
    → v < 2 ^ shift
    → shift + 7 ≤ 63
    → IsU64 (v + g * 2 ^ shift)
    → take_loop ((g + 128) ∷ rest) v shift ≡ take_loop rest (v + g * 2 ^ shift) (shift + 7)
unfolding take_loop
take_more g v shift rest hg hv hs fits = ground (
  arith,
  top_bit (g + 128),
  put_group g (g + 128) v shift (omega (arith, low_bits (g + 128))) hv fits,
)

-- Seven more bits of shift.
next_shift : (s : ℕ) → 2 ^ (s + 7) ≡ 2 ^ s * 128
next_shift s = simp towards_suc (omega arith)

-- The lowest group of `w` and the rest, both shifted by `s`.
split_group : (w s : ℕ) → w % 128 * 2 ^ s + w / 128 * 2 ^ (s + 7) ≡ w * 2 ^ s
split_group w s =
    let whole : w ≡ w % 128 + 128 * (w / 128) = omega arith in
    omega (arith, ap (λ p. w / 128 * p) (next_shift s), ap (λ n. n * 2 ^ s) whole)

-- The group fits under the next shift.
group_below : (v g s : ℕ) → v < 2 ^ s → g < 128 → v + g * 2 ^ s < 2 ^ (s + 7)
group_below v g s hv hg = grind (arith, next_shift s)

-- Each group that is read makes up for one that was written; `k` more may follow.
take_loop-put_rounds :
    (k w v shift : ℕ) (rest : List ℕ)
    → w < 128 ^ suc k
    → shift + 7 * k ≤ 63
    → v < 2 ^ shift
    → IsU64 (v + w * 2 ^ shift)
    → take_loop (put_rounds k [] w ++ rest) v shift ≡ some (v + w * 2 ^ shift, rest)
unfolding put_rounds
take_loop-put_rounds zero w v shift rest hw hs hv fits =
    let small : w % 256 ≡ w = omega arith in
    rw small (take_last w v shift rest (omega arith) hv fits)
take_loop-put_rounds (suc k) w v shift rest hw hs hv fits = elim (Bool-cases (ltb w 0x80)) [
  | inl e ↦
      let small : w % 256 ≡ w = ground arith in
      rw (e, small) (take_last w v shift rest (ground arith) hv fits)
  | inr e ↦
      let byte : bit_or (w % 256) 0x80 ≡ w % 128 + 128 =
        set_top_bit (w % 256) (omega arith) ∙ omega arith in
      let sum : v + w % 128 * 2 ^ shift + w / 128 * 2 ^ (shift + 7) ≡ v + w * 2 ^ shift =
        omega (arith, split_group w shift) in
      rw (e, put_rounds-append k (bit_or (w % 256) 0x80 ∷ []) [] (w / 128), byte)
        (take_more (w % 128) v shift (put_rounds k [] (w / 128) ++ rest) (omega arith) hv
            (omega arith) (omega arith)
          ∙ take_loop-put_rounds k (w / 128) (v + w % 128 * 2 ^ shift) (shift + 7) rest
              (omega (arith, pow-suc 128 (suc k))) (omega arith)
              (group_below v (w % 128) shift hv (omega arith)) (omega arith)
          ∙ ap (λ n. some (n, rest)) sum)
]

-- `take_uvarint` reads back the u64 that `put_uvarint` wrote, and stops right behind it.
pub take_uvarint-put_uvarint :
    (v : ℕ) (rest : List ℕ) → IsU64 v → take_uvarint (put_uvarint [] v ++ rest) ≡ some (v, rest)
unfolding take_uvarint put_uvarint
take_uvarint-put_uvarint v rest h =
    take_loop-put_rounds 9 v 0 0 rest (omega arith) (omega arith) (omega arith) (omega arith)
    ∙ ap (λ n. some (n, rest)) (omega arith)

-- A successful read gives a u64 and takes 1 to 10 bytes, on any input of bytes.
take_loop_takes :
    (b : List ℕ) (v shift j w : ℕ) (rest : List ℕ)
    → shift ≡ 7 * j
    → j ≤ 9
    → take_loop b v shift ≡ some (w, rest)
    → (length rest < length b) × (length b + j ≤ length rest + 10)
unfolding take_loop
take_loop_takes [] v shift j w rest hs hj e = cc
take_loop_takes (x ∷ b) v shift j w rest hs hj e = ground (
  arith,
  take_loop_takes b (bit_or v (bit_and x 0x7f * 2 ^ shift % two_64)) (shift + 7) (j + 1) w rest,
)

-- More input behind a number changes nothing but what is left.
take_loop-append :
    (b more : List ℕ) (v shift w : ℕ) (rest : List ℕ)
    → take_loop b v shift ≡ some (w, rest)
    → take_loop (b ++ more) v shift ≡ some (w, rest ++ more)
unfolding take_loop
take_loop-append [] more v shift w rest e = cc
take_loop-append (x ∷ b) more v shift w rest e = ground (
  arith,
  take_loop-append b more (bit_or v (bit_and x 0x7f * 2 ^ shift % two_64)) (shift + 7) w rest,
)

-- A read that succeeds takes 1 to 10 bytes of its input, whatever the bytes are, and does the same
-- with any more input behind them, of which it takes nothing.
pub take_uvarint_bounds :
    (b more : List ℕ) (v : ℕ) (rest : List ℕ)
    → take_uvarint b ≡ some (v, rest)
    → (length rest < length b)
      × (length b ≤ length rest + 10)
      × (take_uvarint (b ++ more) ≡ some (v, rest ++ more))
unfolding take_uvarint
take_uvarint_bounds b more v rest e =
    let (less, most) = take_loop_takes b 0 0 0 v rest (omega arith) (omega arith) e in
    (less, omega arith, take_loop-append b more 0 0 v rest e)
