-- ===== src/Mime/Addresses.antt =====
-- Addresses, written (crates/bridge/src/mail/rfc2822.rs) and read (crates/bridge/src/mail/parser.rs).
use tutabridge.Prelude.{
  ℕ, ◌+◌, ◌-◌, ◌%◌, ◌^◌, Bool, true, false, not, ◌&&◌, Option, none, some, List, [], ◌∷◌, ◌++◌, map,
  keep, any, ◌==◌, if◌then◌else◌,
}
use tutabridge.Prelude.Text.{Text, codes, is_empty, push, split_once, trim, trim_start, trim_end}
use tutabridge.Wire.{replace}
use tutabridge.Mime.Library.{Library}
use tutabridge.Mime.Strings.{is_ascii, strip_prefix, strip_suffix}
use tutabridge.Mime.Words.{breaks, encode_header_value, decode_header_value}

unfoldable pub is_rfc5322_special : ℕ → Bool
is_rfc5322_special c = any (λ d. c == d) (codes "()<>[]:;@\\,.\"")

unfoldable pub needs_quoting : Text → Bool
unfolding is_rfc5322_special
needs_quoting name = is_ascii name && (not (breaks name) && any is_rfc5322_special name)

abbrev pub delimits : ℕ → Bool
delimits c = any (λ d. c == d) (codes "<>,;\"()")

abbrev pub quoted : Text → Text
quoted name = b'"' ∷ (replace b'"' (92 ∷ b'"' ∷ []) (replace 92 (92 ∷ 92 ∷ []) name) ++ b'"' ∷ [])

module _ (lib : Library) where
  abbrev pub cleaned : Text → Text
  cleaned address = keep (λ c. not (lib.white c) && not (delimits c)) address

  abbrev pub in_angles : Text → Text
  in_angles address = b' ' ∷ b'<' ∷ (cleaned address ++ b'>' ∷ [])

  unfoldable pub format_name_and_address : Text → Text → Text
  unfolding replace needs_quoting encode_header_value
  format_name_and_address name address =
      if is_empty name
      then cleaned address
      else if needs_quoting name
      then quoted name ++ in_angles address
      else encode_header_value lib name ++ in_angles address

  -- `reply_to_addresses`: trimmed, without the blank ones.
  unfoldable pub reply_to_addresses : List (Text × Text) → List (Text × Text)
  unfolding trim_start trim_end
  reply_to_addresses reply_tos =
      keep (λ m. not (is_empty m.1))
        (map {A = Text × Text} (λ m. (m.0, trim lib.white m.1)) reply_tos)

-- `rfind`, and the slices at it.
unfoldable pub split_at_last : ℕ → Text → Option (Text × Text)
split_at_last sep [] = none
split_at_last sep (c ∷ s) = elim (split_at_last sep s) [
  | none ↦ if c == sep then some ([], s) else none
  | some parts ↦ some (c ∷ parts.0, parts.1)
]

-- Without the backslashes that escape a character.
unfoldable unescape : Text → Text
unescape [] = []
unescape (c ∷ []) = if c == 92 then [] else c ∷ []
unescape (c ∷ d ∷ s) =
    let pair = d ∷ unescape s in let rest = unescape (d ∷ s) in if c == 92 then pair else c ∷ rest

abbrev inside_quotes : Text → Option Text
inside_quotes phrase = elim (strip_prefix (b'"' ∷ []) phrase) [
  | none ↦ none
  | some p ↦ strip_suffix (b'"' ∷ []) p
]

abbrev unquoted : Text → Option Text → Text
unquoted phrase none = trim (λ c. c == b'"') phrase
unquoted phrase (some inner) = unescape inner

unfoldable pub unquote : Text → Text
unfolding strip_prefix strip_suffix unescape trim_start trim_end
unquote phrase = unquoted phrase (inside_quotes phrase)

module _ (lib : Library) where
  abbrev angled : Text → Text → Option (Text × Text) → Text × Text
  angled raw before none = ([], raw)
  angled raw before (some parts) =
      (decode_header_value lib (unquote (trim lib.white before)), trim lib.white parts.0)

  abbrev pub single : Text → Option (Text × Text) → Text × Text
  single raw none = ([], raw)
  single raw (some parts) = angled raw parts.0 (split_once b'>' parts.1)

  -- A name and an address.
  unfoldable pub parse_address_single : Text → Text × Text
  unfolding split_at_last split_once trim_start trim_end decode_header_value unquote
  parse_address_single raw = single (trim lib.white raw) (split_at_last b'<' (trim lib.white raw))

-- The entries between the commas: `depth` is an `i32`, in two's complement; the flags are whether
-- the place is in quotes and whether the next character is escaped.
unfoldable pub entries : ℕ → Bool → Bool → Text → List Text
entries depth in_quotes verbatim [] = [] ∷ []
entries depth in_quotes true (c ∷ s) = push c (entries depth in_quotes false s)
entries depth true false (c ∷ s) =
    let closed = entries depth false false s in
    let escaped = entries depth true true s in
    let more = entries depth true false s in
    push c (if c == b'"' then closed else if c == 92 then escaped else more)
entries depth false false (c ∷ s) =
    let opened = entries depth true false s in
    let deeper = entries ((depth + 1) % 2 ^ 32) false false s in
    let back = entries ((depth + (2 ^ 32 - 1)) % 2 ^ 32) false false s in
    let rest = entries depth false false s in
    if c == b'"'
    then push c opened
    else if c == b'<'
    then push c deeper
    else if c == b'>'
    then push c back
    else if c == b',' && depth == 0
    then [] ∷ rest
    else push c rest

module _ (lib : Library) where
  unfoldable pub parse_address_list : Text → List (Text × Text)
  unfolding entries trim_start trim_end parse_address_single
  parse_address_list raw =
      map (parse_address_single lib)
        (keep (λ e. not (is_empty e)) (map (trim lib.white) (entries 0 false false raw)))
