-- ===== src/Mime/Calendar.antt =====
-- The renderer's dates (crates/bridge/src/mail/rfc2822.rs) against those of the search.
use tutabridge.Prelude.{
  ℕ, ◌+◌, ◌-◌, ◌*◌, ◌/◌, ◌%◌, ◌^◌, ◌≤◌, ◌<◌, ◌≡◌, ap, ◌∙◌, arith, ltb, leb, Bool-cases, inl, inr,
  true, false, if◌then◌else◌,
}
use tutabridge.Search.{unsigned_days, days_from_civil, day_number}
use tutabridge.Search.Calendar.{month_length, is_leap}
use tutabridge.Mime.Dates.{year_of_era, day_in_year, month_from_march, days_to_ymd}

yoe_bound : (doe : ℕ) → doe ≤ 146096 → year_of_era doe ≤ 399
yoe_bound doe h = omega (arith, h)

start_le :
    (doe : ℕ)
    → doe ≤ 146096
    → 365 * year_of_era doe + year_of_era doe / 4 - year_of_era doe / 100 ≤ doe
start_le doe h = omega (arith, h)

doy_bound : (doe : ℕ) → doe ≤ 146096 → day_in_year doe (year_of_era doe) ≤ 365
doy_bound doe h = omega (arith, h)

month_bound : (doy : ℕ) → doy ≤ 365 → month_from_march doy ≤ 11
month_bound doy h = omega (arith, h)

spring :
    (era yoe doy : ℕ)
    → yoe ≤ 399
    → month_from_march doy ≤ 9
    → unsigned_days
        (yoe + era * 400)
        (month_from_march doy + 3)
        (doy - (153 * month_from_march doy + 2) / 5 + 1)
      ≡ (era + 1) * 146097 + (yoe * 365 + yoe / 4 - yoe / 100 + doy) + 1
unfolding unsigned_days
spring era yoe doy a b = ground (arith, a, b)

winter :
    (era yoe doy : ℕ)
    → yoe ≤ 399
    → 10 ≤ month_from_march doy
    → month_from_march doy ≤ 11
    → unsigned_days
        (yoe + era * 400 + 1)
        (month_from_march doy - 9)
        (doy - (153 * month_from_march doy + 2) / 5 + 1)
      ≡ (era + 1) * 146097 + (yoe * 365 + yoe / 4 - yoe / 100 + doy) + 1
unfolding unsigned_days
winter era yoe doy a b c = ground (arith, a, b, c)

abbrev number : ℕ × (ℕ × ℕ) → ℕ
number date = unsigned_days date.0 date.1.0 date.1.1

-- The date with the parts that `days_to_ymd` finds.
abbrev date_of : ℕ → ℕ → ℕ → ℕ × (ℕ × ℕ)
date_of era yoe doy =
    let mp = month_from_march doy in
    let d = doy - (153 * mp + 2) / 5 + 1 in
    let m = if ltb mp 10 then mp + 3 else mp - 9 in
    let y = yoe + era * 400 in (if leb m 2 then y + 1 else y, (m, d))

number-date_of :
    (era yoe doy : ℕ)
    → yoe ≤ 399
    → doy ≤ 365
    → number (date_of era yoe doy)
      ≡ (era + 1) * 146097 + (yoe * 365 + yoe / 4 - yoe / 100 + doy) + 1
number-date_of era yoe doy a b = elim (Bool-cases (ltb (month_from_march doy) 10)) [
  | inl p ↦
      let q : leb (month_from_march doy + 3) 2 ≡ false = ground arith in
      rw (p, q) (spring era yoe doy a (ground arith))
  | inr p ↦
      let q : leb (month_from_march doy - 9) 2 ≡ true = ground (arith, month_bound doy b) in
      rw (p, q) (winter era yoe doy a (ground arith) (month_bound doy b))
]

recomposed :
    (doe : ℕ)
    → doe ≤ 146096
    → year_of_era doe * 365
        + year_of_era doe / 4
        - year_of_era doe / 100
        + day_in_year doe (year_of_era doe)
      ≡ doe
recomposed doe h = omega (arith, start_le doe h)

number-parts :
    (era doe : ℕ)
    → doe ≤ 146096
    → number (date_of era (year_of_era doe) (day_in_year doe (year_of_era doe)))
      ≡ (era + 1) * 146097 + doe + 1
number-parts era doe h =
    number-date_of era (year_of_era doe) (day_in_year doe (year_of_era doe)) (yoe_bound doe h)
      (doy_bound doe h)
    ∙ ap (λ n. (era + 1) * 146097 + n + 1) (recomposed doe h)

unsigned_days-days_to_ymd : (days : ℕ) → number (days_to_ymd days) ≡ days + 865566
unfolding days_to_ymd
unsigned_days-days_to_ymd days =
    number-parts ((days + 719468) / 146097) (days + 719468 - (days + 719468) / 146097 * 146097)
      (omega arith)
    ∙ omega arith

valid_spring :
    (y doy : ℕ)
    → month_from_march doy ≤ 9
    → doy - (153 * month_from_march doy + 2) / 5 + 1 ≤ month_length y (month_from_march doy + 3)
unfolding month_length
valid_spring y doy a = ground (arith, a)

leap_by_4 :
    (doe : ℕ)
    → doe ≤ 146096
    → 365 ≤ day_in_year doe (year_of_era doe)
    → (year_of_era doe + 1) % 4 ≡ 0
leap_by_4 doe h k = omega (arith, h, k)

leap_by_100 :
    (doe : ℕ)
    → doe ≤ 146096
    → 365 ≤ day_in_year doe (year_of_era doe)
    → (year_of_era doe + 1) % 100 ≡ 0
    → year_of_era doe ≡ 399
leap_by_100 doe h k l = omega (arith, h, k, l)

leap_end :
    (era doe : ℕ)
    → doe ≤ 146096
    → 365 ≤ day_in_year doe (year_of_era doe)
    → is_leap (year_of_era doe + era * 400 + 1) ≡ true
unfolding is_leap
leap_end era doe h k = ground (arith, leap_by_4 doe h k, leap_by_100 doe h k)

valid_winter :
    (era doe : ℕ)
    → doe ≤ 146096
    → let yoe = year_of_era doe in
      let mp = month_from_march (day_in_year doe yoe) in
      10 ≤ mp
      → mp ≤ 11
      → day_in_year doe yoe - (153 * mp + 2) / 5 + 1 ≤ month_length (yoe + era * 400 + 1) (mp - 9)
unfolding month_length
valid_winter era doe h a b = ground (arith, a, b, doy_bound doe h, leap_end era doe h)

-- A day of the calendar.
abbrev pub IsDate : ℕ × (ℕ × ℕ) → Type 0
IsDate date =
    (1 ≤ date.1.0) × (date.1.0 ≤ 12) × (1 ≤ date.1.1) × (date.1.1 ≤ month_length date.0 date.1.0)

parts-IsDate :
    (era doe : ℕ)
    → doe ≤ 146096
    → IsDate (date_of era (year_of_era doe) (day_in_year doe (year_of_era doe)))
parts-IsDate era doe h =
    elim (Bool-cases (ltb (month_from_march (day_in_year doe (year_of_era doe))) 10)) [
      | inl p ↦
          let q : leb (month_from_march (day_in_year doe (year_of_era doe)) + 3) 2 ≡ false =
            ground arith in
          rw (p, q)
            (
              omega arith,
              ground arith,
              omega arith,
              valid_spring (year_of_era doe + era * 400) (day_in_year doe (year_of_era doe))
                  (ground arith),
            )
      | inr p ↦
          let q : leb (month_from_march (day_in_year doe (year_of_era doe)) - 9) 2 ≡ true =
            ground (arith, month_bound (day_in_year doe (year_of_era doe)) (doy_bound doe h)) in
          rw (p, q)
            (
              ground arith,
              omega (arith, month_bound (day_in_year doe (year_of_era doe)) (doy_bound doe h)),
              omega arith,
              valid_winter era doe h (ground arith)
                  (month_bound (day_in_year doe (year_of_era doe)) (doy_bound doe h)),
            )
    ]

days_to_ymd-IsDate : (days : ℕ) → IsDate (days_to_ymd days)
unfolding days_to_ymd
days_to_ymd-IsDate days =
    parts-IsDate ((days + 719468) / 146097) (days + 719468 - (days + 719468) / 146097 * 146097)
      (omega arith)

-- The date that is written for a mail is a day of the calendar, and counted as SEARCH counts dates it
-- is the day that SEARCH compares for this mail.
pub days_from_civil-days_to_ymd :
    (millis : ℕ)
    → millis < 2 ^ 64
    → let date = days_to_ymd (millis / 1000 / 86400) in
      IsDate date × (days_from_civil date.0 date.1.0 date.1.1 ≡ day_number millis)
unfolding days_from_civil day_number
days_from_civil-days_to_ymd millis h = (
  days_to_ymd-IsDate (millis / 1000 / 86400),
  rw (unsigned_days-days_to_ymd (millis / 1000 / 86400)) (omega (arith, h)),
)
