-- ===== src/Feed/Time.antt =====
-- crates/feed/src/scan.rs: `parse_rfc3339_ns`, with the arithmetic of the release build, in which a
-- u64 wraps around.
pub mod Calendar
use flashbook.Prelude.{
  ℕ, zero, suc, ◌+◌, ◌-◌, ◌*◌, ◌/◌, ◌%◌, ◌^◌, Bool, true, false, List, [], ◌∷◌, ltb, leb, ◌==◌,
  ◌&&◌, ◌||◌, not, if◌then◌else◌, Option, none, some, length, get_elem?, take, drop, ◌>>=◌,
}
use flashbook.Prelude.Int.{two_64}
use flashbook.Proto.Fixed.{is_digit}
use flashbook.Feed.Scan.{prefix_run}
use mathlib.Core.Option
use mathlib.Core.List.{foldl}
use Prim.Native.Nat.{min}

-- A test that ends the parse where it fails.
abbrev require : Bool → Option Bool
require c = if c then some true else none

-- `d`: one decimal digit.
unfoldable pub digit : List ℕ → ℕ → Option ℕ
digit b i = do c ← get_elem? b i; if is_digit c then some (c - b'0') else none

-- `d2`: two of them.
unfoldable pub two_digits : List ℕ → ℕ → Option ℕ
unfolding digit
two_digits b i = do t ← digit b i; u ← digit b (i + 1); some (t * 10 + u)

unfoldable pub four_digits : List ℕ → Option ℕ
unfolding digit
four_digits b = do
  m ← digit b 0
  c ← digit b 1
  t ← digit b 2
  u ← digit b 3
  some (m * 1000 + c * 100 + t * 10 + u)

-- `b[i] == c`, on an index in range.
abbrev has_byte : List ℕ → ℕ → ℕ → Bool
has_byte b i c = Option.get_or (get_elem? b i) 256 == c

unfoldable pub is_leap : ℕ → Bool
is_leap year = year % 4 == 0 && (not (year % 100 == 0) || year % 400 == 0)

-- `DIM`, with 29 for a February of a leap year.
unfoldable pub days_in_month : ℕ → ℕ → ℕ
unfolding is_leap
days_in_month year month =
    if month == 2 && is_leap year
    then 29
    else Option.get_or
        (get_elem? (31 ∷ 28 ∷ 31 ∷ 30 ∷ 31 ∷ 30 ∷ 31 ∷ 31 ∷ 30 ∷ 31 ∷ 30 ∷ 31 ∷ []) (month - 1)) 0

-- The day of a date, counted from the first of March of the year 0.
unfoldable pub civil_days : ℕ → ℕ → ℕ → ℕ
civil_days year month day =
    let y = if leb month 2 then (year + two_64 - 1) % two_64 else year in
    let era = y / 400 in
    let yoe = y - era * 400 in
    let mp = if ltb 2 month then month - 3 else month + 9 in
    let doy = (153 * mp + 2) / 5 + day - 1 in
    let doe = yoe * 365 + yoe / 4 - yoe / 100 + doy in (era * 146_097 + doe) % two_64

-- `.` and 1 to 9 digits as nanoseconds, or nothing; with the offset behind them.
unfoldable pub fraction : List ℕ → Option (ℕ × ℕ)
unfolding prefix_run
fraction b =
    if has_byte b 19 b'.'
    then (let digits = take (prefix_run is_digit (drop 20 b)) (drop 20 b) in
        if length digits == 0 || ltb 9 (length digits)
        then none
        else some (
          foldl (λ frac c. frac * 10 + (c - b'0')) 0 digits * 10 ^ (9 - length digits),
          20 + length digits,
        ))
    else some (0, 19)

-- The date, as days since the epoch.
unfoldable pub epoch_days : List ℕ → Option ℕ
unfolding four_digits two_digits days_in_month civil_days
epoch_days b = do
  year ← four_digits b
  punctuated ←
      require (has_byte b 4 b'-' && has_byte b 7 b'-' && (has_byte b 10 b'T' || has_byte b 10 b't'))
  month ← two_digits b 5
  day ← two_digits b 8
  real ← require (leb 1 month && leb month 12 && leb 1 day && leb day (days_in_month year month))
  recent ← require (leb 719_468 (civil_days year month day))
  some (civil_days year month day - 719_468)

-- The time of day in seconds.
unfoldable pub day_seconds : List ℕ → Option ℕ
unfolding two_digits
day_seconds b = do
  punctuated ← require (has_byte b 13 b':' && has_byte b 16 b':')
  hour ← two_digits b 11
  minute ← two_digits b 14
  sec ← two_digits b 17
  real ← require (leb hour 23 && leb minute 59 && leb sec 59)
  some (hour * 3_600 + minute * 60 + sec)

-- Every failure is the same `None`, so the order of the tests does not show.
unfoldable pub parse_rfc3339_ns : List ℕ → Option ℕ
unfolding epoch_days day_seconds fraction
parse_rfc3339_ns b = do
  long ← require (leb 20 (length b))
  days ← epoch_days b
  time ← day_seconds b
  frac ← fraction b
  ended ← require ((has_byte b frac.1 b'Z' || has_byte b frac.1 b'z') && frac.1 + 1 == length b)
  let ns = (days * 86_400 + time) % two_64 * 1_000_000_000
  if ltb ns two_64 && ltb (ns + frac.0) two_64 then some (ns + frac.0) else none
