-- ===== src/Feed/Time/Calendar.antt =====
-- crates/feed/src/scan.rs: the days that `parse_rfc3339_ns` counts, against the calendar.
use flashbook.Prelude.{
  ℕ, zero, suc, ◌+◌, ◌-◌, ◌*◌, ◌/◌, ◌≤◌, ◌<◌, ltb, if◌then◌else◌, ◌≡◌, refl, sym, ap, ap₂, ◌∙◌,
  arith, Bool-cases, inl, inr,
}
use flashbook.Feed.Time.{civil_days, days_in_month, is_leap}

-- The date behind a date.
abbrev pub next_day : ℕ → ℕ → ℕ → ℕ × ℕ × ℕ
next_day year month day =
    if ltb day (days_in_month year month)
    then (year, month, day + 1)
    else if ltb month 12
    then (year, month + 1, 1)
    else (year + 1, 1, 1)

-- The days before a year that begins in March.
before : ℕ → ℕ
before y =
    y / 400 * 146_097
    + ((y - y / 400 * 400) * 365 + (y - y / 400 * 400) / 4 - (y - y / 400 * 400) / 100)

before_early :
    (year month day : ℕ)
    → 1 ≤ year
    → year ≤ 10_000
    → month ≤ 2
    → 1 ≤ day
    → day ≤ 31
    → civil_days year month day ≡ before (year - 1) + (153 * (month + 9) + 2) / 5 + (day - 1)
unfolding civil_days before
before_early year month day a b c d e = ground arith

before_late :
    (year month day : ℕ)
    → year ≤ 10_000
    → 2 < month
    → month ≤ 12
    → 1 ≤ day
    → day ≤ 31
    → civil_days year month day ≡ before year + (153 * (month - 3) + 2) / 5 + (day - 1)
unfolding civil_days before
before_late year month day a b c d e = ground arith

-- A year has 365 days, and 366 if its February is a leap one.
before-suc : (y : ℕ) → before (suc y) ≡ before y + (if is_leap (suc y) then 366 else 365)
unfolding before is_leap
before-suc y = ground arith

-- The days before a month, in the year that begins in March.
month-days :
    (year month : ℕ)
    → 1 ≤ month
    → month ≤ 12
    → (28 ≤ days_in_month year month)
      × (days_in_month year month ≤ 31)
      × (2 < month
          → month < 12
          → (153 * (month + 1 - 3) + 2) / 5
            ≡ (153 * (month - 3) + 2) / 5 + days_in_month year month)
unfolding days_in_month is_leap
month-days year zero a b = absurd (omega arith)
month-days year (suc zero) a b = (omega arith, omega arith, λ c d. absurd (omega arith))
month-days year (suc (suc zero)) a b = (ground arith, ground arith, λ c d. absurd (omega arith))
month-days year (suc (suc (suc zero))) a b = (omega arith, omega arith, λ c d. refl)
month-days year (suc (suc (suc (suc zero)))) a b = (omega arith, omega arith, λ c d. refl)
month-days year (suc (suc (suc (suc (suc zero))))) a b = (omega arith, omega arith, λ c d. refl)
month-days year (suc (suc (suc (suc (suc (suc zero)))))) a b =
    (omega arith, omega arith, λ c d. refl)
month-days year (suc (suc (suc (suc (suc (suc (suc zero))))))) a b =
    (omega arith, omega arith, λ c d. refl)
month-days year (suc (suc (suc (suc (suc (suc (suc (suc zero)))))))) a b =
    (omega arith, omega arith, λ c d. refl)
month-days year (suc (suc (suc (suc (suc (suc (suc (suc (suc zero))))))))) a b =
    (omega arith, omega arith, λ c d. refl)
month-days year (suc (suc (suc (suc (suc (suc (suc (suc (suc (suc zero)))))))))) a b =
    (omega arith, omega arith, λ c d. refl)
month-days year (suc (suc (suc (suc (suc (suc (suc (suc (suc (suc (suc zero))))))))))) a b =
    (omega arith, omega arith, λ c d. refl)
month-days year (suc (suc (suc (suc (suc (suc (suc (suc (suc (suc (suc (suc zero)))))))))))) a b =
    (omega arith, omega arith, λ c d. absurd (omega arith))
month-days year (suc (suc (suc (suc (suc (suc (suc (suc (suc (suc (suc (suc (suc month)))))))))))))
      a b =
    absurd (omega arith)

days_in_month-january : (year : ℕ) → days_in_month year 1 ≡ 31
unfolding days_in_month
days_in_month-january year = refl

days_in_month-december : (year : ℕ) → days_in_month year 12 ≡ 31
unfolding days_in_month
days_in_month-december year = refl

days_in_month-february : (year : ℕ) → days_in_month year 2 ≡ (if is_leap year then 29 else 28)
unfolding days_in_month
days_in_month-february year = ground arith

-- From the last day of a month that is not December to the first of the next.
next_month :
    (y month : ℕ)
    → y < 9_999
    → 1 ≤ month
    → month < 12
    → civil_days (suc y) (month + 1) 1 ≡ civil_days (suc y) month (days_in_month (suc y) month) + 1
next_month y zero a b c = absurd (omega arith)
next_month y (suc zero) a b c = omega (
  arith,
  ap (civil_days (suc y) 1) (days_in_month-january (suc y)),
  before_early (suc y) 2 1 (omega arith) (omega arith) (omega arith) (omega arith) (omega arith),
  before_early (suc y) 1 31 (omega arith) (omega arith) (omega arith) (omega arith) (omega arith),
)
next_month y (suc (suc zero)) a b c =
    let (least, most, _) = month-days (suc y) 2 (omega arith) (omega arith) in
    ground (
      arith,
      before_late (suc y) 3 1 (omega arith) (omega arith) (omega arith) (omega arith) (omega arith),
      before_early (suc y) 2 (days_in_month (suc y) 2) (omega arith) (omega arith) (omega arith)
          (omega arith) most,
      before-suc y,
      days_in_month-february (suc y),
    )
next_month y (suc (suc (suc m))) a b c =
    let (least, most, sum) = month-days (suc y) (suc (suc (suc m))) (omega arith) (omega arith) in
    omega (
      arith,
      before_late (suc y) (suc (suc (suc m)) + 1) 1 (omega arith) (omega arith) (omega arith)
          (omega arith) (omega arith),
      before_late (suc y) (suc (suc (suc m))) (days_in_month (suc y) (suc (suc (suc m))))
          (omega arith) (omega arith) (omega arith) (omega arith) most,
      sum (omega arith) c,
    )

new_year : (y : ℕ) → y < 9_999 → civil_days (suc y + 1) 1 1 ≡ civil_days (suc y) 12 31 + 1
new_year y a =
    let same : suc y + 1 - 1 ≡ suc y = omega arith in
    omega (
      arith,
      before_early (suc y + 1) 1 1 (omega arith) (omega arith) (omega arith) (omega arith)
          (omega arith),
      before_late (suc y) 12 31 (omega arith) (omega arith) (omega arith) (omega arith)
          (omega arith),
      ap before same,
    )

-- Within a month.
later_day :
    (year month day : ℕ)
    → 1 ≤ year
    → year ≤ 9_999
    → month ≤ 12
    → 1 ≤ day
    → day < 31
    → civil_days year month (day + 1) ≡ civil_days year month day + 1
later_day year month day a b c d e = elim (Bool-cases (ltb 2 month)) [
  | inl late ↦
      let after : 2 < month = ground arith in
      omega (
        arith,
        before_late year month (day + 1) (omega arith) after c (omega arith) (omega arith),
        before_late year month day (omega arith) after c d (omega arith),
      )
  | inr early ↦
      let until : month ≤ 2 = ground arith in
      omega (
        arith,
        before_early year month (day + 1) a (omega arith) until (omega arith) (omega arith),
        before_early year month day a (omega arith) until d (omega arith),
      )
]

-- The day number that the parser computes goes up by 1 from every date of the years 1 to 9999 to
-- the next date of the calendar: the next day, the first of the next month, or the next January 1st.
pub civil_days-next_day :
    (year month day : ℕ)
    → 1 ≤ year
    → year ≤ 9_999
    → 1 ≤ month
    → month ≤ 12
    → 1 ≤ day
    → day ≤ days_in_month year month
    → civil_days (next_day year month day).0 (next_day year month day).1 (next_day year month day).2
      ≡ civil_days year month day + 1
civil_days-next_day zero month day a b c d e f = absurd (omega arith)
civil_days-next_day (suc y) month day a b c d e f =
    let (least, most, _) = month-days (suc y) month c d in
    elim (Bool-cases (ltb day (days_in_month (suc y) month))) [
      | inl within ↦ rw within (later_day (suc y) month day a (omega arith) d e (ground arith))
      | inr last ↦
          let full : day ≡ days_in_month (suc y) month = ground arith in
          elim (Bool-cases (ltb month 12)) [
            | inl more ↦
                rw (last, more)
                  (next_month y month (omega arith) c (ground arith)
                    ∙ ap (λ n. civil_days (suc y) month n + 1) (sym full))
            | inr december ↦
                let at : month ≡ 12 = ground arith in
                rw (last, december)
                  (new_year y (omega arith)
                    ∙ ap (λ n. n + 1)
                        (ap₂ (civil_days (suc y)) (sym at) (
                          sym (
                            full
                            ∙ ap (days_in_month (suc y)) at
                            ∙ days_in_month-december (suc y)))))
          ]
    ]
