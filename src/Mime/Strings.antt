-- ===== src/Mime/Strings.antt =====
-- What the readers and writers of mails (crates/bridge/src/mail/) use of `str`, on code points. A
-- position is a number of bytes, as in the code.
use tutabridge.Prelude.{
  ℕ, zero, suc, ◌+◌, ◌-◌, Bool, ◌&&◌, Option, none, some, List, [], ◌∷◌, ◌++◌, ltb, leb, ◌==◌,
  if◌then◌else◌, length, all, drop,
}
use tutabridge.Prelude.Text.{Text, starts_with, len_utf8, len, is_empty}

-- `replace`, of a text that is not empty by another one; so many characters more belong to a match.
unfoldable pub replace_from : Text → Text → ℕ → Text → Text
unfolding starts_with
replace_from old new n [] = []
replace_from old new (suc n) (c ∷ s) = replace_from old new n s
replace_from old new zero (c ∷ s) =
    let behind = replace_from old new (length old - 1) s in
    let rest = replace_from old new zero s in
    if starts_with (c ∷ s) old then new ++ behind else c ∷ rest

unfoldable pub replace_text : Text → Text → Text → Text
unfolding replace_from
replace_text old new s = replace_from old new zero s

-- The parts before and behind the first occurrence: `find` and the slices at it.
unfoldable pub split_at_text : Text → Text → Option (Text × Text)
unfolding starts_with
split_at_text needle [] = if is_empty needle then some ([], []) else none
split_at_text needle (c ∷ s) =
    let rest = split_at_text needle s in
    if starts_with (c ∷ s) needle
    then some ([], drop (length needle) (c ∷ s))
    else elim rest [ none ↦ none | some parts ↦ some (c ∷ parts.0, parts.1) ]

-- `find`
unfoldable pub find : Text → Text → Option ℕ
unfolding split_at_text len
find needle s = elim (split_at_text needle s) [ none ↦ none | some parts ↦ some (len parts.0) ]

-- `&s[n..]`; a position inside a character, where the code panics, is moved behind it.
unfoldable pub drop_bytes : ℕ → Text → Text
drop_bytes n [] = []
drop_bytes zero (c ∷ s) = c ∷ s
drop_bytes (suc n) (c ∷ s) = drop_bytes (suc n - len_utf8 c) s

unfoldable pub reverse_onto : Text → Text → Text
reverse_onto [] t = t
reverse_onto (c ∷ s) t = reverse_onto s (c ∷ t)

abbrev pub reverse : Text → Text
reverse s = reverse_onto s []

unfoldable pub ends_with : Text → Text → Bool
unfolding starts_with reverse_onto
ends_with s suffix = starts_with (reverse s) (reverse suffix)

unfoldable pub strip_prefix : Text → Text → Option Text
unfolding starts_with
strip_prefix prefix s = if starts_with s prefix then some (drop (length prefix) s) else none

-- All but so many characters at the end.
abbrev pub drop_last : ℕ → Text → Text
drop_last n s = reverse (drop n (reverse s))

unfoldable pub strip_suffix : Text → Text → Option Text
unfolding ends_with reverse_onto
strip_suffix suffix s = if ends_with s suffix then some (drop_last (length suffix) s) else none

abbrev pub ascii_lower : ℕ → ℕ
ascii_lower c = if leb b'A' c && leb c b'Z' then c + 32 else c

unfoldable pub to_ascii_lowercase : Text → Text
to_ascii_lowercase [] = []
to_ascii_lowercase (c ∷ s) = ascii_lower c ∷ to_ascii_lowercase s

abbrev pub is_ascii : Text → Bool
is_ascii s = all (λ c. ltb c 128) s

-- A line, backwards, without the carriage return at its end.
abbrev unbroken : Text → Text
unbroken [] = []
unbroken (c ∷ line) = if c == 13 then line else c ∷ line

-- `lines`: without the line breaks, and without an empty line at the end.
unfoldable pub lines_from : Text → Text → List Text
unfolding reverse_onto
lines_from line [] = if is_empty line then [] else reverse line ∷ []
lines_from line (c ∷ s) =
    let next = lines_from [] s in
    let more = lines_from (c ∷ line) s in if c == 10 then reverse (unbroken line) ∷ next else more

abbrev pub lines : Text → List Text
lines s = lines_from [] s

-- `split` at a character, its first part.
unfoldable pub until : (ℕ → Bool) → Text → Text
until p [] = []
until p (c ∷ s) = let rest = until p s in if p c then [] else c ∷ rest

-- `unwrap_or_default`
abbrev pub or_empty : Option Text → Text
or_empty none = []
or_empty (some t) = t
