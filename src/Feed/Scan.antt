-- ===== src/Feed/Scan.antt =====
-- crates/feed/src/scan.rs: the byte cursor of the fast-path codecs, and the RFC 3339 timestamps. A
-- payload is the list of its bytes. `memchr` and `memmem`, which search bytes, are parameters.
use flashbook.Prelude.{
  ℕ, ◌+◌, ◌-◌, ◌*◌, Bool, true, false, List, [], ◌∷◌, ltb, leb, ◌==◌, ◌||◌, if◌then◌else◌, Option,
  none, some, length, get_elem?, take, drop, ◌>>=◌,
}
use flashbook.Prelude.Int.{two_64}
use flashbook.Proto.Fixed.{is_digit}
use Prim.Native.Nat.{min}

-- The payload and the offset in it.
pub record Cursor : Type 0 where
  pub b : List ℕ
  pub i : ℕ

-- `Cursor::new`
abbrev pub new : List ℕ → Cursor
new b = record { b = b; i = 0 }

-- `set_pos`, clamped to the length
unfoldable pub set_pos : ℕ → Cursor → Cursor
set_pos i c = record c { i = min i (length c.b) }

abbrev pub rest : Cursor → List ℕ
rest c = drop c.i c.b

abbrev pub done : Cursor → Bool
done c = leb (length c.b) c.i

abbrev pub peek : Cursor → Option ℕ
peek c = get_elem? c.b c.i

abbrev advance : ℕ → Cursor → Cursor
advance n c = record c { i = c.i + n }

-- `eat`
unfoldable pub eat : ℕ → Cursor → Bool × Cursor
eat x c = elim (peek c) [
  | some y ↦ if y == x then (true, advance 1 c) else (false, c)
  | none ↦ (false, c)
]

-- How many bytes at the front pass a test: what a loop that eats them moves the cursor by.
unfoldable pub prefix_run : (ℕ → Bool) → List ℕ → ℕ
prefix_run p [] = 0
prefix_run p (x ∷ b) = let more = prefix_run p b in if p x then more + 1 else 0

abbrev is_ws : ℕ → Bool
is_ws x = x == b' ' || x == b'\t' || x == b'\n' || x == b'\r'

unfoldable pub skip_ws : Cursor → Cursor
unfolding prefix_run
skip_ws c = advance (prefix_run is_ws (rest c)) c

abbrev is_number_byte : ℕ → Bool
is_number_byte x = is_digit x || x == b'-' || x == b'+' || x == b'.' || x == b'e' || x == b'E'

unfoldable pub read_number : Cursor → Option (List ℕ) × Cursor
unfolding prefix_run
read_number c =
    let n = prefix_run is_number_byte (rest c) in
    if n == 0 then (none, c) else (some (take n (rest c)), advance n c)

-- The loop of `read_u64`, with the number of digits eaten, also where it overflows.
u64_loop : List ℕ → ℕ → ℕ → Option ℕ × ℕ
u64_loop [] v n = (some v, n)
u64_loop (x ∷ b) v n =
    let further = u64_loop b (v * 10 + (x - b'0')) (n + 1) in
    if is_digit x
    then (if ltb (v * 10 + (x - b'0')) two_64 then further else (none, n))
    else (some v, n)

unfoldable pub read_u64 : Cursor → Option ℕ × Cursor
unfolding u64_loop
read_u64 c = let (v, n) = u64_loop (rest c) 0 0 in (if n == 0 then none else v, advance n c)

module _ (memchr : ℕ → List ℕ → Option ℕ) where
  -- The bytes behind the opening quote, up to the next quote.
  quoted : Cursor → Option (List ℕ) × Cursor
  quoted c = elim (memchr b'"' (rest c)) [
    | none ↦ (none, c)
    | some n ↦ elim (memchr b'\\' (take n (rest c))) [
      | none ↦ (some (take n (rest c)), advance (n + 1) c)
      | some _ ↦ (none, c)
    ]
  ]

  unfoldable pub read_string : Cursor → Option (List ℕ) × Cursor
  unfolding eat quoted
  read_string c = let (opened, c') = eat b'"' c in if opened then quoted c' else (none, c')

module _ (memmem : List ℕ → List ℕ → Option ℕ) where
  -- `skip_past` and, with a prepared needle, `skip_past_finder`: none, and no move, if it is absent.
  unfoldable pub skip_past : List ℕ → Cursor → Option Cursor
  skip_past needle c = memmem (rest c) needle >>= λ at. some (advance (at + length needle) c)
