-- ===== src/Proto/RawLog/Header.antt =====
-- crates/proto/src/rawlog.rs: the header of a segment, written and read.
use flashbook.Prelude.{
  ℕ, ◌^◌, ◌≤◌, ◌<◌, true, false, Option, none, some, List, ◌∷◌, ◌++◌, length, ltb, ◌==◌, Result, ok,
  ◌≡◌, refl, sym, ap, ◌∙◌, arith, Bool-cases, inl, inr, length-append,
}
use flashbook.Prelude.Bytes.{same_bytes, le_bytes, from_le_bytes, from_le_bytes-le_bytes}
use flashbook.Prelude.Slices.{read_exact, read_exact-append, read_exact_parts}
use flashbook.Prelude.Int.{IsU64}
use flashbook.Proto.RawLog.{
  RawLogReader, RawLogError, magic, version, max_payload, create, from_reader, or_bad_header,
  with_fixed, with_magic, opened, le_slice,
}
use Prim.Native.String.{String}
use mathlib.Core.List.{append_assoc}
use mathlib.Core.Path.{subst}

-- A header that the reader takes: a venue byte, u64 clocks, and not too much metadata.
pub record IsHeader (venue start_wall_ns start_mono_ns : ℕ) (meta : List ℕ) : Type 0 where
  pub venue_byte : venue < 256
  pub wall_u64 : IsU64 start_wall_ns
  pub mono_u64 : IsU64 start_mono_ns
  pub short : length meta ≤ max_payload

-- The 24 bytes between the magic and the metadata.
abbrev fixed_bytes : ℕ → ℕ → ℕ → ℕ → List ℕ
fixed_bytes venue start_wall_ns start_mono_ns n =
    version
    ∷ venue
    ∷ (le_bytes 2 0 ++ (le_bytes 8 start_wall_ns ++ (le_bytes 8 start_mono_ns ++ le_bytes 4 n)))

abbrev pub header_bytes : ℕ → ℕ → ℕ → List ℕ → List ℕ
header_bytes venue start_wall_ns start_mono_ns meta =
    magic ++ (fixed_bytes venue start_wall_ns start_mono_ns (length meta) ++ meta)

pub create_bytes :
    (venue start_wall_ns start_mono_ns : ℕ) (meta : List ℕ)
    → IsHeader venue start_wall_ns start_mono_ns meta
    → create venue start_wall_ns start_mono_ns meta
      ≡ ok (record {
        w = header_bytes venue start_wall_ns start_mono_ns meta;
        bytes = length (header_bytes venue start_wall_ns start_mono_ns meta);
        records = 0;
      })
unfolding create le_bytes
create_bytes venue start_wall_ns start_mono_ns meta h =
    let fits : ltb (length meta) (2 ^ 32) ≡ true = ground (arith, h.short) in
    rw fits (
      ap
        (λ n. ok (record {
          w = header_bytes venue start_wall_ns start_mono_ns meta;
          bytes = n;
          records = 0;
        }))
        (omega arith))

module _ (venue start_wall_ns start_mono_ns : ℕ) (meta : List ℕ)
    (h : IsHeader venue start_wall_ns start_mono_ns meta) where
  fixed_fields :
      (le_slice (fixed_bytes venue start_wall_ns start_mono_ns (length meta)) 0 1 ≡ version)
      × (le_slice (fixed_bytes venue start_wall_ns start_mono_ns (length meta)) 1 1 ≡ venue)
      × (le_slice (fixed_bytes venue start_wall_ns start_mono_ns (length meta)) 4 8 ≡ start_wall_ns)
      × (le_slice (fixed_bytes venue start_wall_ns start_mono_ns (length meta)) 12 8
          ≡ start_mono_ns)
      × (le_slice (fixed_bytes venue start_wall_ns start_mono_ns (length meta)) 20 4 ≡ length meta)
  unfolding le_bytes from_le_bytes
  fixed_fields = (
    refl,
    omega arith,
    from_le_bytes-le_bytes 8 start_wall_ns h.wall_u64,
    from_le_bytes-le_bytes 8 start_mono_ns h.mono_u64,
    from_le_bytes-le_bytes 4 (length meta) (omega (arith, h.short)),
  )

  -- The reader opens what `create` wrote, with whatever follows.
  pub from_reader-header_bytes :
      (t : List ℕ)
      → from_reader (header_bytes venue start_wall_ns start_mono_ns meta ++ t)
        ≡ ok (record {
          r = t;
          header = record {
            version = version;
            venue = venue;
            start_wall_ns = start_wall_ns;
            start_mono_ns = start_mono_ns;
            meta = meta;
          };
          offset = length (header_bytes venue start_wall_ns start_mono_ns meta);
        })
  unfolding from_reader with_magic with_fixed or_bad_header same_bytes read_exact le_bytes
  from_reader-header_bytes t =
      let (is_version, is_venue, wall, mono, size) = fixed_fields in
      let fits : ltb max_payload (length meta) ≡ false = ground (arith, h.short) in
      rw (is_version, size, fits, read_exact-append meta t, is_venue, wall, mono)
        (ap
          (λ n. ok (record {
            r = t;
            header = record {
              version = version;
              venue = venue;
              start_wall_ns = start_wall_ns;
              start_mono_ns = start_mono_ns;
              meta = meta;
            };
            offset = n;
          }))
          (omega arith))

or_bad_header-ok :
    {A : Type 0} (o : Option A) (reason : String) (f : A → Result RawLogReader RawLogError)
    (rd : RawLogReader)
    → or_bad_header o reason f ≡ ok rd
    → (a : A) × (o ≡ some a) × (f a ≡ ok rd)
unfolding or_bad_header
or_bad_header-ok none reason f rd e = absurd (ground arith)
or_bad_header-ok (some a) reason f rd e = (a, refl, e)

-- What a successful open took from the front, and that it does the same in front of anything else.
pub record Opened (file : List ℕ) (rd : RawLogReader) : Type 0 where
  pub front : List ℕ
  pub parts : file ≡ front ++ rd.r
  pub offset : rd.offset ≡ length front
  pub again : (t : List ℕ) → from_reader (front ++ t) ≡ ok (record rd { r = t })

Opened-parts :
    (file first fixed meta b1 b2 r : List ℕ)
    → read_exact 8 file ≡ some (first, b1)
    → same_bytes first magic ≡ true
    → read_exact 24 b1 ≡ some (fixed, b2)
    → (le_slice fixed 0 1 == version) ≡ true
    → ltb max_payload (le_slice fixed 20 4) ≡ false
    → read_exact (le_slice fixed 20 4) b2 ≡ some (meta, r)
    → Opened file (opened fixed (meta, r))
unfolding from_reader with_magic with_fixed or_bad_header
Opened-parts file first fixed meta b1 b2 r e same e1 ver small e2 =
    let (p, eight) = read_exact_parts 8 file first b1 e in
    let (p1, size) = read_exact_parts 24 b1 fixed b2 e1 in
    let (p2, meta_len) = read_exact_parts (le_slice fixed 20 4) b2 meta r e2 in
    record {
      front = first ++ (fixed ++ meta);
      parts =
          p
          ∙ ap (λ l. first ++ l) (p1 ∙ ap (λ l. fixed ++ l) p2 ∙ sym (append_assoc fixed meta r))
          ∙ sym (append_assoc first (fixed ++ meta) r);
      offset =
          omega
            (arith, length-append first (fixed ++ meta), length-append fixed meta, eight, meta_len);
      again = λ t.
          let q : read_exact 8 (first ++ (fixed ++ meta) ++ t)
              ≡ some (first, fixed ++ (meta ++ t)) =
            ap (read_exact 8) (
              append_assoc first (fixed ++ meta) t
              ∙ ap (λ l. first ++ l) (append_assoc fixed meta t))
            ∙ ap (λ k. read_exact k (first ++ (fixed ++ (meta ++ t)))) (sym eight)
            ∙ read_exact-append first (fixed ++ (meta ++ t)) in
          let q1 : read_exact 24 (fixed ++ (meta ++ t)) ≡ some (fixed, meta ++ t) =
            ap (λ k. read_exact k (fixed ++ (meta ++ t))) (sym size)
            ∙ read_exact-append fixed (meta ++ t) in
          let q2 : read_exact (le_slice fixed 20 4) (meta ++ t) ≡ some (meta, t) =
            ap (λ k. read_exact k (meta ++ t)) (sym meta_len) ∙ read_exact-append meta t in
          rw (q, or_bad_header, same, q1, or_bad_header, ver, small, q2, or_bad_header);
    }

Opened-fixed :
    (file first b1 : List ℕ) (x : List ℕ × List ℕ) (rd : RawLogReader)
    → read_exact 8 file ≡ some (first, b1)
    → same_bytes first magic ≡ true
    → read_exact 24 b1 ≡ some x
    → with_fixed x ≡ ok rd
    → Opened file rd
unfolding with_fixed
Opened-fixed file first b1 (fixed, b2) rd e same e1 d =
    elim (Bool-cases (le_slice fixed 0 1 == version)) [
      | inr other ↦ absurd (ground arith)
      | inl ver ↦ elim (Bool-cases (ltb max_payload (le_slice fixed 20 4))) [
        | inl large ↦ absurd (ground arith)
        | inr small ↦
            let ((meta, r), e2, d2) =
              or_bad_header-ok (read_exact (le_slice fixed 20 4) b2) "short meta"
                (λ m. ok (opened fixed m)) rd (rw (ver, small) at d) in
            let same_rd : opened fixed (meta, r) ≡ rd = cc in
            subst (Opened file) same_rd
              (Opened-parts file first fixed meta b1 b2 r e same e1 ver small e2)
      ]
    ]

Opened-magic :
    (file : List ℕ) (x : List ℕ × List ℕ) (rd : RawLogReader)
    → read_exact 8 file ≡ some x
    → with_magic x ≡ ok rd
    → Opened file rd
unfolding with_magic
Opened-magic file (first, b1) rd e d = elim (Bool-cases (same_bytes first magic)) [
  | inr other ↦ absurd (ground arith)
  | inl same ↦
      let (y, e1, d1) =
        or_bad_header-ok (read_exact 24 b1) "short header" with_fixed rd (rw same at d) in
      Opened-fixed file first b1 y rd e same e1 d1
]

-- An open that succeeds depends on the header's bytes, and no others.
pub from_reader-Opened :
    (file : List ℕ) (rd : RawLogReader) → from_reader file ≡ ok rd → Opened file rd
unfolding from_reader
from_reader-Opened file rd e =
    let (x, e0, d) = or_bad_header-ok (read_exact 8 file) "short magic" with_magic rd e in
    Opened-magic file x rd e0 d
