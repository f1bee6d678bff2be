-- ===== src/Store/Pit/Sidecar/RoundTrip.antt =====
-- crates/store/src/pit.rs: a sidecar that was saved, read whole or cut off.
use flashbook.Prelude.{
  ℕ, zero, suc, ◌+◌, ◌-◌, ◌*◌, ◌^◌, ◌≤◌, ◌<◌, ◌≡◌, refl, sym, ap, ap₂, ◌∙◌, arith, true, false,
  List, [], ◌∷◌, ◌++◌, length, length-append, length-take, take, drop, take_append_le,
  take_append_ge, ltb, ◌==◌, if◌then◌else◌, ok, err, All, Bool-cases, inl, inr,
}
use flashbook.Prelude.Int.{IsU64}
use flashbook.Prelude.Bytes.{
  le_bytes, from_le_bytes, length-le_bytes, from_le_bytes-le_bytes, same_bytes, same_bytes_refl,
}
use flashbook.Prelude.Results.{required-eq-ok, ok_is}
use flashbook.Prelude.Slices.{take-append, drop-append}
use flashbook.Proto.Hasher.{Hasher, IsCrc32, hash}
use flashbook.Store.Pit.{
  torn_sidecar, SnapEntry, pit_magic, pit_version, write_to, read_from, le_slice, is_sorted_by_key,
}
use flashbook.Store.Pit.Sidecar.{write_entries, read_entries, save, with_count, from_bytes}
use Prim.Native.Nat.{min}
use mathlib.Core.List.{append_assoc, append-nil}

-- The fields of an entry are in the ranges of their types.
pub record IsPacked (e : SnapEntry) : Type 0 where
  pub instrument : e.instrument < 2 ^ 32
  pub mono : IsU64 e.mono
  pub block_idx : e.block_idx < 2 ^ 32
  pub event_idx : e.event_idx < 2 ^ 32

packed : List SnapEntry → List ℕ
packed [] = []
packed (e ∷ es) = write_to e [] ++ packed es

write_entries-packed :
    (es : List SnapEntry) (out : List ℕ) → write_entries es out ≡ out ++ packed es
unfolding write_entries packed write_to
write_entries-packed [] out = sym (append-nil out)
write_entries-packed (e ∷ es) out =
    write_entries-packed es (write_to e out) ∙ append_assoc out (write_to e []) (packed es)

length-write_to : (e : SnapEntry) → 20 ≡ length (write_to e [])
unfolding write_to le_bytes
length-write_to e = omega arith

length-packed : (es : List SnapEntry) → length (packed es) ≡ length es * 20
unfolding packed write_to le_bytes
length-packed [] = omega arith
length-packed (e ∷ es) = omega (arith, length-packed es)

read_from-write_to :
    (e : SnapEntry) (t : List ℕ) → IsPacked e → read_from (take 20 (write_to e [] ++ t)) ≡ e
unfolding read_from write_to le_bytes from_le_bytes
read_from-write_to e t h =
    let instrument_is : le_slice (take 20 (write_to e [] ++ t)) 0 4 ≡ e.instrument =
      from_le_bytes-le_bytes 4 e.instrument h.instrument in
    let mono_is : le_slice (take 20 (write_to e [] ++ t)) 4 8 ≡ e.mono =
      from_le_bytes-le_bytes 8 e.mono h.mono in
    let block_is : le_slice (take 20 (write_to e [] ++ t)) 12 4 ≡ e.block_idx =
      from_le_bytes-le_bytes 4 e.block_idx h.block_idx in
    let event_is : le_slice (take 20 (write_to e [] ++ t)) 16 4 ≡ e.event_idx =
      from_le_bytes-le_bytes 4 e.event_idx h.event_idx in
    rw (instrument_is, mono_is, block_is, event_is) refl

read_entries-packed :
    (es : List SnapEntry) → All IsPacked es → read_entries (length es) (packed es) ≡ es
unfolding read_entries packed
read_entries-packed [] a = refl
read_entries-packed (e ∷ es) a =
    ap₂ (λ x l. x ∷ l) (read_from-write_to e (packed es) a.0)
      (ap (read_entries (length es))
          (drop-append (write_to e []) (packed es) 20 (length-write_to e))
        ∙ read_entries-packed es a.1)

-- The header of a sidecar of `n` entries.
abbrev front : ℕ → List ℕ
front n = pit_magic ++ (pit_version ∷ 0 ∷ 0 ∷ 0 ∷ le_bytes 4 n)

length-front : (n : ℕ) → length (front n) ≡ 16
unfolding le_bytes
length-front n = omega arith

magic_prefix :
    (j m : ℕ) (t : List ℕ) → m ≤ j → m ≤ 8 → take m (take j (pit_magic ++ t)) ≡ take m pit_magic
magic_prefix j m t h g = take-take m j (pit_magic ++ t) h ∙ take_append_le m pit_magic t g
  where
    take-take : (m j : ℕ) (l : List ℕ) → m ≤ j → take m (take j l) ≡ take m l
    take-take zero j l h = refl
    take-take (suc m) zero l h = absurd (omega arith)
    take-take (suc m) (suc j) [] h = refl
    take-take (suc m) (suc j) (x ∷ l) h = ap (λ k. x ∷ k) (take-take m j l (omega arith))

module _ (E : Type 0) (hasher : Hasher) where
  -- A header that is whole passes, whatever stands behind it.
  from_bytes-front :
      (n : ℕ) (t : List ℕ)
      → n < 2 ^ 32
      → from_bytes E hasher (front n ++ t) ≡ with_count E hasher n (front n ++ t)
  unfolding from_bytes le_bytes from_le_bytes same_bytes
  from_bytes-front n t h =
      let eight : min (length (front n ++ t)) 8 ≡ 8 = omega arith in
      let long : ltb (length (front n ++ t)) 16 ≡ false = ground arith in
      let count : le_slice (front n ++ t) 12 4 ≡ n = from_le_bytes-le_bytes 4 n h in
      rw (eight, long, count) refl

  -- One that is cut off is torn.
  from_bytes_short :
      (n j : ℕ) (t : List ℕ)
      → j < 16
      → from_bytes E hasher (take j (front n ++ t)) ≡ err (torn_sidecar "short header")
  unfolding from_bytes
  from_bytes_short n j t h =
      let b = take j (front n ++ t) in
      let m = min (length b) 8 in
      let size : length b ≤ j = length-take j (front n ++ t) in
      let same : same_bytes (take m b) (take m pit_magic) ≡ true =
        ap (λ l. same_bytes l (take m pit_magic))
          (magic_prefix j m (pit_version ∷ 0 ∷ 0 ∷ 0 ∷ (le_bytes 4 n ++ t)) (omega arith)
            (omega arith))
        ∙ same_bytes_refl (take m pit_magic) in
      let short : ltb (length b) 16 ≡ true = ground (arith, size) in rw (same, short) refl

  abbrev saved : List SnapEntry → List ℕ
  saved es = front (length es) ++ (packed es ++ le_bytes 4 (hash hasher (packed es)))

  save-saved : (es : List SnapEntry) → length es < 2 ^ 32 → save E hasher es ≡ ok (saved es)
  unfolding save le_bytes
  save-saved es h =
      let fits : ltb (length es) (2 ^ 32) ≡ true = ground (arith, h) in
      rw (fits, write_entries-packed es []) refl

  length-saved : (es : List SnapEntry) → length (saved es) ≡ 16 + length es * 20 + 4
  unfolding le_bytes
  length-saved es =
      omega
        (arith, length-append (packed es) (le_bytes 4 (hash hasher (packed es))), length-packed es)

  module _ (es : List SnapEntry) (fits : length es < 2 ^ 32) where
    body_read : take (length es * 20) (drop 16 (saved es)) ≡ packed es
    unfolding le_bytes
    body_read = take-append (packed es) _ (length es * 20) (sym (length-packed es))

    crc_read :
        IsCrc32 hasher
        → le_slice (saved es) (16 + length es * 20 + 4 - 4) 4 ≡ hash hasher (packed es)
    crc_read laws =
        let crc = hash hasher (packed es) in
        let split : saved es ≡ (front (length es) ++ packed es) ++ (le_bytes 4 crc ++ []) =
          sym (append_assoc (front (length es)) (packed es) (le_bytes 4 crc))
          ∙ ap (λ l. (front (length es) ++ packed es) ++ l) (sym (append-nil (le_bytes 4 crc))) in
        ap (λ l. le_slice l (16 + length es * 20 + 4 - 4) 4) split
        ∙ ap from_le_bytes (
            ap (take 4) (
              drop-append (front (length es) ++ packed es) (le_bytes 4 crc ++ [])
                (16 + length es * 20 + 4 - 4)
                (omega (
                  arith,
                  length-append (front (length es)) (packed es),
                  length-packed es,
                  length-front (length es),
                )))
            ∙ take-append (le_bytes 4 crc) [] 4 (sym (length-le_bytes 4 crc)))
        ∙ from_le_bytes-le_bytes 4 crc (laws.is_u32 _)

    with_count-saved :
        IsCrc32 hasher
        → All IsPacked es
        → is_sorted_by_key es ≡ true
        → with_count E hasher (length es) (saved es) ≡ ok es
    unfolding with_count
    with_count-saved laws a sorted =
        let n = length es in
        let enough : ltb (length (saved es)) (16 + n * 20 + 4) ≡ false =
          ground (arith, length-saved es) in
        let no_more : ltb (16 + n * 20 + 4) (length (saved es)) ≡ false =
          ground (arith, length-saved es) in
        let same : (hash hasher (packed es) == hash hasher (packed es)) ≡ true = ground arith in
        rw (enough, no_more, body_read, crc_read laws, same, read_entries-packed es a, sorted) refl

  saved-bytes :
      (es : List SnapEntry) (bytes : List ℕ)
      → save E hasher es ≡ ok bytes
      → (length es < 2 ^ 32) × (bytes ≡ saved es)
  unfolding save
  saved-bytes es bytes e =
      let (fits, _) = required-eq-ok (ltb (length es) (2 ^ 32)) _ _ e in
      let small : length es < 2 ^ 32 = ground (arith, fits) in
      (small, ok_is (sym e ∙ save-saved es small))

  -- Behind a header that is whole, the entries are cut off.
  with_count_torn :
      (n k : ℕ) (t : List ℕ)
      → k < n * 20 + 4
      → with_count E hasher n (front n ++ take k t) ≡ err (torn_sidecar "truncated entries")
  unfolding with_count
  with_count_torn n k t h =
      let short : ltb (length (front n ++ take k t)) (16 + n * 20 + 4) ≡ true =
        ground (arith, length-append (front n) (take k t), length-front n, length-take k t) in
      rw short refl

  -- A sidecar that was saved and is cut off, anywhere, is torn: it is not corrupt, and not read as a
  -- shorter index.
  pub from_bytes_torn :
      (es : List SnapEntry) (bytes : List ℕ) (j : ℕ)
      → save E hasher es ≡ ok bytes
      → j < length bytes
      → from_bytes E hasher (take j bytes)
        ≡ err (torn_sidecar (if ltb j 16 then "short header" else "truncated entries"))
  from_bytes_torn es bytes j e h =
      let (fits, same) = saved-bytes es bytes e in
      let n = length es in
      let t = packed es ++ le_bytes 4 (hash hasher (packed es)) in
      let below : j < 16 + n * 20 + 4 = omega (arith, ap length same, length-saved es) in
      ap (λ b. from_bytes E hasher (take j b)) same ∙ elim (Bool-cases (ltb j 16)) [
        | inl short ↦ rw short (from_bytes_short n j t (ground (arith, short)))
        | inr long ↦
            let past : 16 ≤ j = ground (arith, long) in
            rw long (
              ap (from_bytes E hasher) (
                take_append_ge j (front n) t (omega (arith, past, length-front n))
                ∙ ap (λ k. front n ++ take (j - k) t) (length-front n))
              ∙ from_bytes-front n (take (j - 16) t) fits
              ∙ with_count_torn n (j - 16) t (omega (arith, past, below)))
      ]

  -- An index of less than 2^32 sorted entries with fields in range is saved, and read back.
  pub from_bytes-save :
      (es : List SnapEntry)
      → IsCrc32 hasher
      → All IsPacked es
      → is_sorted_by_key es ≡ true
      → length es < 2 ^ 32
      → (bytes : List ℕ) × (save E hasher es ≡ ok bytes) × (from_bytes E hasher bytes ≡ ok es)
  from_bytes-save es laws a sorted h = (
    saved es,
    save-saved es h,
    from_bytes-front (length es) _ h ∙ with_count-saved es h laws a sorted,
  )
