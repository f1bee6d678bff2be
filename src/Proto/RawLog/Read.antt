-- ===== src/Proto/RawLog/Read.antt =====
-- crates/proto/src/rawlog.rs: one record read, what a written one gives and what any read takes.
use flashbook.Prelude.{
  ℕ, ◌+◌, ◌-◌, ◌^◌, ◌≤◌, ◌<◌, true, false, none, some, List, [], ◌∷◌, ◌++◌, length, take, drop, ltb,
  ◌==◌, if◌then◌else◌, ok, err, ◌≡◌, refl, sym, ap, ◌∙◌, arith, Bool-cases, inl, inr, length-append,
  eq→==, length-take, length-take_le, take_append_ge,
}
use flashbook.Prelude.Bytes.{le_bytes, from_le_bytes, length-le_bytes, from_le_bytes-le_bytes}
use flashbook.Prelude.Slices.{
  read_exact, read_exact-append, read_exact_short, take-append, drop-append,
}
use flashbook.Prelude.Int.{IsU64}
use Prim.Native.String.{String}
use flashbook.Proto.Hasher.{Hasher, hash, IsCrc32}
use flashbook.Proto.RawLog.{
  RawRecord, RawLogReader, torn_tail, record_overhead, max_payload, record_crc, read_body,
  read_rest, read_record, read_prefix, read_next, plausible,
}
use mathlib.Core.List.{append_assoc}

-- A record that `append` takes: a kind byte, two u64 clocks, and not too much payload.
pub record IsWritable (rec : RawRecord) : Type 0 where
  pub kind_byte : rec.rkind < 256
  pub mono_u64 : IsU64 rec.recv_mono_ns
  pub wall_u64 : IsU64 rec.recv_wall_ns
  pub short : length rec.payload ≤ max_payload

-- Why a record of which `k` bytes are there is refused.
abbrev pub torn_reason : ℕ → String
torn_reason k = if ltb k 4 then "partial length prefix" else "record truncated"

-- The body of a record, which the checksum covers.
abbrev pub body_bytes : RawRecord → List ℕ
body_bytes rec =
    (rec.rkind ∷ []) ++ le_bytes 8 rec.recv_mono_ns ++ le_bytes 8 rec.recv_wall_ns ++ rec.payload

module _ (hasher : Hasher) (laws : IsCrc32 hasher) where
  -- The bytes that `append` adds.
  abbrev pub record_bytes : RawRecord → List ℕ
  record_bytes rec =
      le_bytes 4 (record_overhead + length rec.payload)
      ++ (body_bytes rec ++ le_bytes 4 (record_crc hasher rec))

  record_crc-eq-hash : (rec : RawRecord) → record_crc hasher rec ≡ hash hasher (body_bytes rec)
  unfolding record_crc
  record_crc-eq-hash rec =
      let s = hasher.start in
      let kind = rec.rkind ∷ [] in
      let mono = le_bytes 8 rec.recv_mono_ns in
      let wall = le_bytes 8 rec.recv_wall_ns in
      let law = laws.streaming.in_a_row in
      ap hasher.finalize (
        ap (λ d. hasher.update (hasher.update d wall) rec.payload) (law s kind mono)
        ∙ ap (λ d. hasher.update d rec.payload) (law s (kind ++ mono) wall)
        ∙ law s (kind ++ mono ++ wall) rec.payload)

  length-body_bytes : (rec : RawRecord) → length (body_bytes rec) ≡ 17 + length rec.payload
  unfolding le_bytes
  length-body_bytes rec = omega arith

  pub length-record_bytes : (rec : RawRecord) → length (record_bytes rec) ≡ 25 + length rec.payload
  length-record_bytes rec = omega (
    arith,
    length-append (le_bytes 4 (record_overhead + length rec.payload))
        (body_bytes rec ++ le_bytes 4 (record_crc hasher rec)),
    length-append (body_bytes rec) (le_bytes 4 (record_crc hasher rec)),
    length-le_bytes 4 (record_overhead + length rec.payload),
    length-le_bytes 4 (record_crc hasher rec),
    length-body_bytes rec,
  )

  from_le_bytes-body :
      (rec : RawRecord)
      → IsWritable rec
      → (from_le_bytes (take 1 (body_bytes rec)) ≡ rec.rkind)
        × (from_le_bytes (take 8 (drop 1 (body_bytes rec))) ≡ rec.recv_mono_ns)
        × (from_le_bytes (take 8 (drop 9 (body_bytes rec))) ≡ rec.recv_wall_ns)
        × (drop 17 (body_bytes rec) ≡ rec.payload)
  unfolding le_bytes from_le_bytes
  from_le_bytes-body rec h = (
    omega arith,
    from_le_bytes-le_bytes 8 rec.recv_mono_ns h.mono_u64,
    from_le_bytes-le_bytes 8 rec.recv_wall_ns h.wall_u64,
    refl,
  )

  -- The body that was read gives the record back.
  read_body-body_bytes :
      (rec : RawRecord) (rest : List ℕ) (rd : RawLogReader)
      → IsWritable rec
      → read_body hasher
          (record_overhead + length rec.payload)
          (body_bytes rec ++ le_bytes 4 (record_crc hasher rec))
          rest
          rd
        ≡ ok (
          some rec,
          record rd { r = rest; offset = rd.offset + (4 + (record_overhead + length rec.payload)) },
        )
  unfolding read_body
  read_body-body_bytes rec rest rd h =
      let n = record_overhead + length rec.payload - 4 in
      let crc = hash hasher (body_bytes rec) in
      let small : crc < 256 ^ 4 = laws.is_u32 _ in
      let same : n ≡ length (body_bytes rec) = omega (arith, length-body_bytes rec) in
      let (kind, mono, wall, payload) = from_le_bytes-body rec h in
      rw (
        record_crc-eq-hash rec,
        take-append (body_bytes rec) (le_bytes 4 crc) n same,
        drop-append (body_bytes rec) (le_bytes 4 crc) n same,
        from_le_bytes-le_bytes 4 crc small,
        eq→== crc crc refl,
        kind,
        mono,
        wall,
        payload,
      )

  read_record-record_bytes :
      (rec : RawRecord) (rest : List ℕ) (rd : RawLogReader)
      → IsWritable rec
      → read_record hasher
          (record_overhead + length rec.payload)
          (body_bytes rec ++ le_bytes 4 (record_crc hasher rec) ++ rest)
          rd
        ≡ ok (
          some rec,
          record rd { r = rest; offset = rd.offset + (4 + (record_overhead + length rec.payload)) },
        )
  unfolding read_record read_rest
  read_record-record_bytes rec rest rd h =
      let n = record_overhead + length rec.payload in
      let buf = body_bytes rec ++ le_bytes 4 (record_crc hasher rec) in
      let fits : plausible n ≡ true = ground (arith, h.short) in
      let whole : length buf ≡ n = omega (
        arith,
        length-append (body_bytes rec) (le_bytes 4 (record_crc hasher rec)),
        length-body_bytes rec,
        length-le_bytes 4 (record_crc hasher rec),
      ) in
      let read : read_exact n (buf ++ rest) ≡ some (buf, rest) =
        ap (λ k. read_exact k (buf ++ rest)) (sym whole) ∙ read_exact-append buf rest in
      rw (fits, read) (read_body-body_bytes rec rest rd h)

  -- What `append` wrote, `read_next` reads back, with whatever follows.
  pub read_next-record_bytes :
      (rec : RawRecord) (rest : List ℕ) (rd : RawLogReader)
      → IsWritable rec
      → rd.r ≡ record_bytes rec ++ rest
      → read_next hasher rd
        ≡ ok (some rec, record rd { r = rest; offset = rd.offset + length (record_bytes rec) })
  unfolding read_next read_prefix
  read_next-record_bytes rec rest rd h e =
      let n = record_overhead + length rec.payload in
      let buf = body_bytes rec ++ le_bytes 4 (record_crc hasher rec) in
      let small : n < 256 ^ 4 = omega (arith, h.short) in
      let prefix : read_exact 4 rd.r ≡ some (le_bytes 4 n, buf ++ rest) =
        ap (read_exact 4) (e ∙ append_assoc (le_bytes 4 n) buf rest)
        ∙ ap (λ k. read_exact k (le_bytes 4 n ++ (buf ++ rest))) (sym (length-le_bytes 4 n))
        ∙ read_exact-append (le_bytes 4 n) (buf ++ rest) in
      ap (λ o. read_prefix hasher o rd) prefix
      ∙ (ap (λ k. read_record hasher k (buf ++ rest) rd) (from_le_bytes-le_bytes 4 n small)
          ∙ read_record-record_bytes rec rest rd h
          ∙ ap (λ k. ok (some rec, record rd { r = rest; offset = rd.offset + k }))
              (omega (arith, length-record_bytes rec)))

  -- A record that is cut off, in its length or behind it, is a torn tail.
  pub read_next_torn :
      (rec : RawRecord) (k : ℕ) (rd : RawLogReader)
      → IsWritable rec
      → 0 < k
      → k < length (record_bytes rec)
      → rd.r ≡ take k (record_bytes rec)
      → read_next hasher rd ≡ err (torn_tail rd.offset (torn_reason k))
  unfolding read_next read_prefix read_record read_rest
  read_next_torn rec k rd h pos cut e =
      let n = record_overhead + length rec.payload in
      let buf = body_bytes rec ++ le_bytes 4 (record_crc hasher rec) in
      let size : length rd.r ≡ k =
        ap length e ∙ length-take_le k (record_bytes rec) (omega arith) in
      elim (Bool-cases (ltb k 4)) [
        | inl less ↦
            let nothing : read_exact 4 rd.r ≡ none = read_exact_short 4 rd.r (ground arith) in
            let some_left : (length rd.r == 0) ≡ false = ground arith in
            rw less (ap (λ o. read_prefix hasher o rd) nothing ∙ rw some_left)
        | inr more ↦
            let at_least : 4 ≤ k = ground arith in
            let small : n < 256 ^ 4 = omega (arith, h.short) in
            let fits : plausible n ≡ true = ground (arith, h.short) in
            let tail = take (k - length (le_bytes 4 n)) buf in
            let prefix : read_exact 4 rd.r ≡ some (le_bytes 4 n, tail) =
              ap (read_exact 4)
                (e ∙ take_append_ge k (le_bytes 4 n) buf (omega (arith, length-le_bytes 4 n)))
              ∙ ap (λ j. read_exact j (le_bytes 4 n ++ tail)) (sym (length-le_bytes 4 n))
              ∙ read_exact-append (le_bytes 4 n) tail in
            let nothing : read_exact n tail ≡ none = read_exact_short n tail (
              omega (
                arith,
                length-take (k - length (le_bytes 4 n)) buf,
                length-le_bytes 4 n,
                length-record_bytes rec,
              )) in
            let failed : read_prefix hasher (some (le_bytes 4 n, tail)) rd
                ≡ err (torn_tail rd.offset "record truncated") =
              rw (from_le_bytes-le_bytes 4 n small, fits)
                (ap (λ o. read_rest hasher n o rd) nothing) in
            rw more (ap (λ o. read_prefix hasher o rd) prefix ∙ failed)
      ]
