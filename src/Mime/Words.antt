-- ===== src/Mime/Words.antt =====
-- Encoded words: crates/bridge/src/mail/rfc2822.rs and parser.rs.
use tutabridge.Prelude.{
  ℕ, zero, suc, ◌+◌, ◌*◌, ◌-◌, Bool, not, ◌&&◌, ◌||◌, Option, none, some, List, [], ◌∷◌, ◌++◌, leb,
  ◌==◌, any, length, if◌then◌else◌,
}
use tutabridge.Prelude.Text.{
  Text, codes, same_text, starts_with, contains, split_once, trim, trim_start,
}
use tutabridge.Mime.Library.{Library}
use tutabridge.Mime.Strings.{is_ascii, split_at_text}

-- `contains('\r')` or `contains('\n')`.
abbrev pub breaks : Text → Bool
breaks s = any (λ c. c == 13 || c == 10) s

module _ (lib : Library) where
  unfoldable pub encode_header_value : Text → Text
  encode_header_value s =
      if is_ascii s && not (breaks s)
      then s
      else codes "=?UTF-8?B?" ++ (lib.encode64 (lib.as_bytes s) ++ codes "?=")

abbrev hex_digit : ℕ → Option ℕ
hex_digit c =
    if leb b'0' c && leb c b'9'
    then some (c - b'0')
    else if leb b'a' c && leb c b'f'
    then some (c - 87)
    else if leb b'A' c && leb c b'F'
    then some (c - 55)
    else none

abbrev with_digit : Option ℕ → Option ℕ → Option ℕ
with_digit (some a) (some b) = some (a * 16 + b)
with_digit _ _ = none

-- `u8::from_str_radix` of two bytes, in base 16: a plus sign may stand first.
unfoldable pub hex_byte : ℕ → ℕ → Option ℕ
hex_byte a b = if a == b'+' then hex_digit b else with_digit (hex_digit a) (hex_digit b)

abbrev spaced : ℕ → ℕ
spaced c = if c == b'_' then b' ' else c

-- The bytes of a Q word, so many of them already read.
unfoldable q_bytes : ℕ → List ℕ → List ℕ
unfolding hex_byte
q_bytes n [] = []
q_bytes (suc n) (c ∷ s) = q_bytes n s
q_bytes zero (c ∷ []) = spaced c ∷ []
q_bytes zero (c ∷ d ∷ []) = spaced c ∷ spaced d ∷ []
q_bytes zero (c ∷ d ∷ e ∷ s) =
    let behind = q_bytes 2 (d ∷ e ∷ s) in
    let rest = q_bytes zero (d ∷ e ∷ s) in
    let byte = if c == b'=' then hex_byte d e else none in
    elim byte [ none ↦ spaced c ∷ rest | some b ↦ b ∷ behind ]

module _ (lib : Library) where
  abbrev or_raw : Text → Option Text → Text
  or_raw s none = s
  or_raw s (some t) = t

  unfoldable decode_q_encoding : Text → Text
  unfolding q_bytes
  decode_q_encoding s = or_raw s (lib.from_utf8 (q_bytes zero (lib.as_bytes s)))

  abbrev as_utf8 : Option (List ℕ) → Option Text
  as_utf8 none = none
  as_utf8 (some bytes) = lib.from_utf8 bytes

  unfoldable decode_word : Text → Text → Option Text
  unfolding decode_q_encoding same_text
  decode_word encoding encoded =
      if same_text encoding (codes "B")
      then as_utf8 (lib.decode64 encoded)
      else if same_text encoding (codes "Q")
      then some (decode_q_encoding encoded)
      else none

  abbrev behind_equals : Text → Option Text → Option (Text × Text)
  behind_equals [] decoded = none
  behind_equals (c ∷ rest) none = none
  behind_equals (c ∷ rest) (some t) = if c == b'=' then some (t, rest) else none

  -- `charset?enc?text?=` at the start: the text that it stands for, and what comes behind it.
  unfoldable encoded_word : Text → Option (Text × Text)
  unfolding decode_word split_once
  encoded_word s = elim (split_once b'?' s) [
    | none ↦ none
    | some a ↦ elim (split_once b'?' a.1) [
      | none ↦ none
      | some b ↦ elim (split_once b'?' b.1) [
        | none ↦ none
        | some c ↦ behind_equals c.1 (decode_word (lib.to_uppercase b.0) c.0)
      ]
    ]
  ]

  -- White space between two words is dropped.
  abbrev before_next : Text → Text
  before_next s =
      if starts_with (trim_start lib.white s) (codes "=?") then trim_start lib.white s else s

  unfoldable decode_words : ℕ → Text → Text
  unfolding encoded_word split_at_text trim_start starts_with
  decode_words zero s = s
  decode_words (suc fuel) s = elim (split_at_text (codes "=?") s) [
    | none ↦ s
    | some parts ↦ parts.0 ++ (elim (encoded_word parts.1) [
      | none ↦ codes "=?" ++ decode_words fuel parts.1
      | some word ↦ word.0 ++ decode_words fuel (before_next word.1)
    ])
  ]

  unfoldable pub decode_header_value : Text → Text
  unfolding decode_words trim_start contains
  decode_header_value raw =
      let s = trim lib.white raw in if contains s (codes "=?") then decode_words (length s) s else s
