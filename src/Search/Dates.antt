-- ===== src/Search/Dates.antt =====
-- Dates (crates/bridge/src/imap/search.rs). Sums of `i64` wrap. The parts of a date that are parsed
-- have no sign, as the text is split at dashes.
use tutabridge.Prelude.{
  ℕ, ◌+◌, ◌-◌, ◌*◌, ◌/◌, ◌%◌, ◌^◌, Bool, Option, none, some, List, [], ◌∷◌, ltb, leb, if◌then◌else◌,
}
use tutabridge.Prelude.Text.{Text, codes, same_text, split, parse_number}

-- In March the count of months starts; January and February belong to the year before. Years are
-- counted from 400 years earlier than in the code, one era more, so that no division meets a
-- negative number; `negative` takes that era out again, with the constant and the first day.
abbrev shifted_year : ℕ → ℕ → ℕ
shifted_year y m = if leb m 2 then y + 399 else y + 400

abbrev pub day_of_year : ℕ → ℕ
day_of_year m = (153 * (if ltb 2 m then m - 3 else m + 9) + 2) / 5

unfoldable pub unsigned_days : ℕ → ℕ → ℕ → ℕ
unsigned_days y m d =
    let era = shifted_year y m / 400 in
    let yoe = shifted_year y m % 400 in
    era * 146097 + (yoe * 365 + yoe / 4 - yoe / 100 + day_of_year m) + d

abbrev pub negative : ℕ
negative = 2 ^ 64 - (719468 + 146097 + 1)

unfoldable pub days_from_civil : ℕ → ℕ → ℕ → ℕ
unfolding unsigned_days
days_from_civil y m d = (unsigned_days y m d + negative) % 2 ^ 64

-- `<` on two's complement.
abbrev pub lt_i64 : ℕ → ℕ → Bool
lt_i64 a b = ltb ((a + 2 ^ 63) % 2 ^ 64) ((b + 2 ^ 63) % 2 ^ 64)

unfoldable pub day_number : ℕ → ℕ
day_number ms = ms / 86400000

month_of : Text → Option ℕ
month_of t =
    if same_text t (codes "jan")
    then some 1
    else if same_text t (codes "feb")
    then some 2
    else if same_text t (codes "mar")
    then some 3
    else if same_text t (codes "apr")
    then some 4
    else if same_text t (codes "may")
    then some 5
    else if same_text t (codes "jun")
    then some 6
    else if same_text t (codes "jul")
    then some 7
    else if same_text t (codes "aug")
    then some 8
    else if same_text t (codes "sep")
    then some 9
    else if same_text t (codes "oct")
    then some 10
    else if same_text t (codes "nov")
    then some 11
    else if same_text t (codes "dec")
    then some 12
    else none

abbrev date_of : Option ℕ → Option ℕ → Option ℕ → Option ℕ
date_of (some d) (some m) (some y) = some (days_from_civil y m d)
date_of _ _ _ = none

abbrev three_parts : (Text → Text) → List Text → Option ℕ
three_parts lower (d ∷ m ∷ y ∷ []) =
    date_of (parse_number (2 ^ 63) d) (month_of (lower m)) (parse_number (2 ^ 63) y)
three_parts lower _ = none

unfoldable pub parse_imap_date : (Text → Text) → Text → Option ℕ
unfolding month_of
parse_imap_date lower s = three_parts lower (split b'-' s)
