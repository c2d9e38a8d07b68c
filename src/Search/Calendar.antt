-- ===== src/Search/Calendar.antt =====
-- `days_from_civil` (crates/bridge/src/imap/search.rs) against the calendar.
use tutabridge.Prelude.{
  ℕ, zero, suc, ◌+◌, ◌-◌, ◌*◌, ◌/◌, ◌%◌, ◌^◌, ◌≤◌, arith, Bool, not, ◌&&◌, ◌||◌, ◌==◌, ltb, ==_iff,
  Bool-cases, inl, inr, if◌then◌else◌, ◌≡◌,
}
use tutabridge.Search.Dates.{unsigned_days, days_from_civil}

unfoldable pub is_leap : ℕ → Bool
is_leap y = y % 4 == 0 && (not (y % 100 == 0) || y % 400 == 0)

abbrev years : ℕ → ℕ
years z = z / 400 * 146097 + (z % 400 * 365 + z % 400 / 4 - z % 400 / 100)

abbrev leap_day : ℕ → ℕ
leap_day y = if is_leap y then 1 else 0

years_closed : (z : ℕ) → years z + z / 100 ≡ 365 * z + z / 4 + z / 400
years_closed z = omega arith

closed_step :
    (z : ℕ) → suc z / 4 + suc z / 400 + z / 100 ≡ z / 4 + z / 400 + suc z / 100 + leap_day (suc z)
unfolding is_leap
closed_step z = ground arith

leap_day-era : (y : ℕ) → leap_day (suc (y + 399)) ≡ leap_day y
unfolding is_leap
leap_day-era y = ground arith

-- From a February to the March of the same year.
years_step : (y : ℕ) → years (y + 400) ≡ years (y + 399) + 365 + leap_day y
years_step y =
    omega
      (arith, years_closed (y + 399), years_closed (y + 400), closed_step (y + 399), leap_day-era y)

unfoldable pub month_length : ℕ → ℕ → ℕ
month_length y m =
    if m == 2 then 28 + leap_day y else if m == 4 || (m == 6 || (m == 9 || m == 11)) then 30 else 31

unfoldable pub next_day : ℕ → ℕ → ℕ → ℕ × (ℕ × ℕ)
unfolding month_length
next_day y m d =
    if ltb d (month_length y m)
    then (y, (m, suc d))
    else if m == 12
    then (suc y, (1, 1))
    else (y, (suc m, 1))

month_end :
    (y m : ℕ)
    → 1 ≤ m
    → m ≤ 11
    → unsigned_days y (suc m) 1 ≡ suc (unsigned_days y m (month_length y m))
unfolding unsigned_days month_length
month_end y zero a b = absurd (omega (arith, a))
month_end y (suc zero) a b = omega arith
month_end y (suc (suc zero)) a b = omega (arith, years_step y)
month_end y (suc (suc (suc zero))) a b = omega arith
month_end y (suc (suc (suc (suc zero)))) a b = omega arith
month_end y (suc (suc (suc (suc (suc zero))))) a b = omega arith
month_end y (suc (suc (suc (suc (suc (suc zero)))))) a b = omega arith
month_end y (suc (suc (suc (suc (suc (suc (suc zero))))))) a b = omega arith
month_end y (suc (suc (suc (suc (suc (suc (suc (suc zero)))))))) a b = omega arith
month_end y (suc (suc (suc (suc (suc (suc (suc (suc (suc zero))))))))) a b = omega arith
month_end y (suc (suc (suc (suc (suc (suc (suc (suc (suc (suc zero)))))))))) a b = omega arith
month_end y (suc (suc (suc (suc (suc (suc (suc (suc (suc (suc (suc zero))))))))))) a b = omega arith
month_end y (suc (suc (suc (suc (suc (suc (suc (suc (suc (suc (suc (suc m)))))))))))) a b =
    absurd (omega (arith, b))

year_end : (y : ℕ) → unsigned_days (suc y) 1 1 ≡ suc (unsigned_days y 12 31)
unfolding unsigned_days
year_end y = omega arith

abbrev number : ℕ × (ℕ × ℕ) → ℕ
number day = unsigned_days day.0 day.1.0 day.1.1

inside : (y m d : ℕ) → unsigned_days y m (suc d) ≡ suc (unsigned_days y m d)
unfolding unsigned_days
inside y m d = omega arith

at_end :
    (y m : ℕ)
    → 1 ≤ m
    → m ≤ 12
    → number (if m == 12 then (suc y, (1, 1)) else (y, (suc m, 1)))
      ≡ suc (unsigned_days y m (month_length y m))
unfolding month_length
at_end y m a b = elim (Bool-cases (m == 12)) [
  | inl e ↦ rw (e, (==_iff m 12).0 e) (year_end y)
  | inr e ↦ rw e (month_end y m a (ground arith))
]

number-next_day :
    (y m d : ℕ)
    → 1 ≤ m
    → m ≤ 12
    → d ≤ month_length y m
    → number (next_day y m d) ≡ suc (unsigned_days y m d)
unfolding next_day
number-next_day y m d a b c = elim (Bool-cases (ltb d (month_length y m))) [
  | inl e ↦ rw e (inside y m d)
  | inr e ↦ let last : d ≡ month_length y m = ground arith in rw (e, last) (at_end y m a b)
]

-- On every date of the calendar, the day after it has the next number; numbers are those of `i64`, in
-- two's complement. A leap year is one that 4 divides, and of those that 100 divides, one that 400
-- divides.
pub days_from_civil-next_day :
    (y m d : ℕ) (from_january : 1 ≤ m) (to_december : m ≤ 12) (in_month : d ≤ month_length y m)
    → days_from_civil (next_day y m d).0 (next_day y m d).1.0 (next_day y m d).1.1
      ≡ suc (days_from_civil y m d) % 2 ^ 64
unfolding days_from_civil next_day
days_from_civil-next_day y m d a b c = omega (arith, number-next_day y m d a b c)
