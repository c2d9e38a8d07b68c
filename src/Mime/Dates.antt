-- ===== src/Mime/Dates.antt =====
-- Dates as they are written (crates/bridge/src/mail/rfc2822.rs), from milliseconds since 1970.
use tutabridge.Prelude.{
  ℕ, zero, suc, ◌+◌, ◌-◌, ◌*◌, ◌/◌, ◌%◌, List, [], ◌∷◌, ◌++◌, ltb, leb, length, get_elem?, none,
  some, if◌then◌else◌,
}
use tutabridge.Prelude.Text.{Text, codes}
use tutabridge.Wire.{decimal}

-- `days_to_ymd`: years from March, in eras of 400.
abbrev pub year_of_era : ℕ → ℕ
year_of_era doe = (doe - doe / 1460 + doe / 36524 - doe / 146096) / 365

abbrev pub day_in_year : ℕ → ℕ → ℕ
day_in_year doe yoe = doe - (365 * yoe + yoe / 4 - yoe / 100)

abbrev pub month_from_march : ℕ → ℕ
month_from_march doy = (5 * doy + 2) / 153

unfoldable pub days_to_ymd : ℕ → ℕ × (ℕ × ℕ)
days_to_ymd days =
    let z = days + 719468 in
    let era = z / 146097 in
    let doe = z - era * 146097 in
    let yoe = year_of_era doe in
    let doy = day_in_year doe yoe in
    let mp = month_from_march doy in
    let d = doy - (153 * mp + 2) / 5 + 1 in
    let m = if ltb mp 10 then mp + 3 else mp - 9 in
    let y = yoe + era * 400 in (if leb m 2 then y + 1 else y, (m, d))

abbrev zeros : ℕ → Text
zeros zero = []
zeros (suc n) = b'0' ∷ zeros n

-- `{:02}` and `{:04}`.
unfoldable pub padded : ℕ → ℕ → Text
unfolding decimal
padded width n = zeros (width - length (decimal n)) ++ decimal n

abbrev at : ℕ → List Text → Text
at i ts = elim (get_elem? ts i) [ none ↦ [] | some t ↦ t ]

abbrev weekdays : List Text
weekdays =
    codes "Sun"
    ∷ codes "Mon"
    ∷ codes "Tue"
    ∷ codes "Wed"
    ∷ codes "Thu"
    ∷ codes "Fri"
    ∷ codes "Sat"
    ∷ []

abbrev pub months : List Text
months =
    codes "Jan"
    ∷ codes "Feb"
    ∷ codes "Mar"
    ∷ codes "Apr"
    ∷ codes "May"
    ∷ codes "Jun"
    ∷ codes "Jul"
    ∷ codes "Aug"
    ∷ codes "Sep"
    ∷ codes "Oct"
    ∷ codes "Nov"
    ∷ codes "Dec"
    ∷ []

abbrev month_name : ℕ → Text
month_name month = at (if ltb 11 (month - 1) then 11 else month - 1) months

-- `hh:mm:ss +0000`
unfoldable pub clock : ℕ → Text
unfolding padded
clock time_of_day =
    padded 2 (time_of_day / 3600)
    ++ (b':'
        ∷ (padded 2 (time_of_day % 3600 / 60)
            ++ (b':' ∷ (padded 2 (time_of_day % 60) ++ codes " +0000"))))

unfoldable pub format_rfc2822_date : ℕ → Text
unfolding days_to_ymd padded clock
format_rfc2822_date millis =
    let secs = millis / 1000 in
    let days = secs / 86400 in
    let date = days_to_ymd days in
    at ((days + 4) % 7) weekdays
    ++ (codes ", "
        ++ (padded 2 date.1.1
            ++ (b' '
                ∷ (month_name date.1.0
                    ++ (b' ' ∷ (padded 4 date.0 ++ (b' ' ∷ clock (secs % 86400))))))))

unfoldable pub format_internal_date : ℕ → Text
unfolding days_to_ymd padded clock
format_internal_date millis =
    let secs = millis / 1000 in
    let date = days_to_ymd (secs / 86400) in
    padded 2 date.1.1
    ++ (b'-' ∷ (month_name date.1.0 ++ (b'-' ∷ (padded 4 date.0 ++ (b' ' ∷ clock (secs % 86400))))))
