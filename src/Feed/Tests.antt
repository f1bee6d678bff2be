-- ===== src/Feed/Tests.antt =====
-- Runs of the timestamp parser, and the theorems at concrete inputs.
use flashbook.Prelude.{ℕ, ◌+◌, ◌≡◌, refl, arith, some, List, [], ◌∷◌}
use flashbook.Feed.Time.{civil_days, days_in_month, parse_rfc3339_ns}
use flashbook.Feed.Time.Calendar.{civil_days-next_day}

-- 2024-02-29T00:00:01.5Z
abbrev leap_day : List ℕ
leap_day =
    b'2' ∷ b'0' ∷ b'2' ∷ b'4' ∷ b'-' ∷ b'0' ∷ b'2' ∷ b'-' ∷ b'2' ∷ b'9' ∷ b'T' ∷ b'0' ∷ b'0' ∷ b':'
    ∷ b'0' ∷ b'0' ∷ b':' ∷ b'0' ∷ b'1' ∷ b'.' ∷ b'5' ∷ b'Z' ∷ []

leap_day_ns : parse_rfc3339_ns leap_day ≡ some 1_709_164_801_500_000_000
unfolding parse_rfc3339_ns
leap_day_ns = refl

epoch_start : civil_days 1970 1 1 ≡ 719_468
unfolding civil_days
epoch_start = refl

civil_days-next_day_example : civil_days 2024 3 1 ≡ civil_days 2024 2 29 + 1
unfolding days_in_month
civil_days-next_day_example =
    civil_days-next_day 2024 2 29 (omega arith) (omega arith) (omega arith) (omega arith)
      (omega arith) (omega arith)
