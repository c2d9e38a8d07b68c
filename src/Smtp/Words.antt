-- ===== src/Smtp/Words.antt =====
-- What a command line is read as (crates/bridge/src/smtp/mod.rs).
use tutabridge.Prelude.{
  ℕ, suc, ◌+◌, ◌-◌, ◌^◌, Bool, false, ◌&&◌, Option, none, some, List, [], ◌∷◌, map, ltb, leb, ◌==◌,
  if◌then◌else◌, any, take, drop,
}
use tutabridge.Prelude.Text.{Text, codes, same_text, split, split_once, words, trim, parse_number}

abbrev upper_ascii : ℕ → ℕ
upper_ascii c = if leb b'a' c && leb c b'z' then c - 32 else c

abbrev pub eq_ignore_ascii_case : Text → Text → Bool
eq_ignore_ascii_case s t = same_text (map upper_ascii s) (map upper_ascii t)

abbrev exceeds : ℕ → Option ℕ → Bool
exceeds max none = false
exceeds max (some n) = ltb max n

unfoldable pub size_param_exceeds : (ℕ → Bool) → Text → ℕ → Bool
size_param_exceeds white mail_line max =
    any
      (λ tok.
        eq_ignore_ascii_case (take 5 tok) (codes "SIZE=")
        && exceeds max (parse_number (2 ^ 64) (drop 5 tok)))
      (words white mail_line)

abbrev plus_one : Option ℕ → Option ℕ
plus_one none = none
plus_one (some i) = some (suc i)

unfoldable pub find : ℕ → Text → Option ℕ
find c [] = none
find c (x ∷ xs) = let later = find c xs in if x == c then some 0 else plus_one later

abbrev second : List Text → Text
second [] = []
second (a ∷ []) = []
second (a ∷ b ∷ rest) = b

-- The text between the brackets, or else what stands behind the first colon.
unfoldable pub extract_address : (ℕ → Bool) → Text → Text
unfolding find
extract_address white line =
    let fallback = trim white (second (split b':' line)) in
    elim (find b'<' line) [
      | none ↦ fallback
      | some start ↦ elim (find b'>' line) [
        | none ↦ fallback
        | some end ↦
            if ltb start end then take (end - (start + 1)) (drop (start + 1) line) else fallback
      ]
    ]

-- `splitn(3, ' ')`: the second part and the third.
abbrev pub part_one : Option (Text × Text) → Text
part_one none = []
part_one (some (a, rest)) = elim (split_once b' ' rest) [ none ↦ rest | some (b, c) ↦ b ]

abbrev pub part_two : Option (Text × Text) → Option Text
part_two none = none
part_two (some (a, rest)) = elim (split_once b' ' rest) [ none ↦ none | some (b, c) ↦ some c ]

pub data Verb : Type 0 where
  hello auth mail rcpt begin_data rset quit noop other : Verb

abbrev first_word : List Text → Text
first_word [] = []
first_word (w ∷ ws) = w

abbrev verb_of : Text → Verb
verb_of cmd =
    if same_text cmd (codes "EHLO")
    then hello
    else if same_text cmd (codes "HELO")
    then hello
    else if same_text cmd (codes "AUTH")
    then auth
    else if same_text cmd (codes "MAIL")
    then mail
    else if same_text cmd (codes "RCPT")
    then rcpt
    else if same_text cmd (codes "DATA")
    then begin_data
    else if same_text cmd (codes "RSET")
    then rset
    else if same_text cmd (codes "QUIT")
    then quit
    else if same_text cmd (codes "NOOP")
    then noop
    else other

-- `upper` is `to_uppercase`.
unfoldable pub command : (ℕ → Bool) → (Text → Text) → Text → Verb
command white upper trimmed = verb_of (upper (first_word (words white trimmed)))
