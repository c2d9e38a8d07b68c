-- ===== src/Mime/Headers.antt =====
-- The header section of a mail: crates/bridge/src/mail/parser.rs and rfc2822.rs, and the sections of it
-- that FETCH answers with (crates/bridge/src/imap/session.rs).
use tutabridge.Prelude.{
  ℕ, zero, suc, Bool, true, false, not, ◌&&◌, ◌||◌, Option, none, some, List, [], ◌∷◌, ◌++◌, first,
  any, length, get_elem?, ◌==◌, if◌then◌else◌,
}
use tutabridge.Prelude.Text.{Text, codes, same_text, starts_with, is_empty, split_once, trim, push}
use tutabridge.Wire.{AddressHeaders}
use tutabridge.Mime.Library.{Library}
use tutabridge.Mime.Strings.{split_at_text, strip_prefix, lines, or_empty, until}
use tutabridge.Mime.Addresses.{parse_address_list}

abbrev pub crlf_crlf : Text
crlf_crlf = 13 ∷ 10 ∷ 13 ∷ 10 ∷ []

abbrev lf_lf : Text
lf_lf = 10 ∷ 10 ∷ []

-- Before the blank line, and from it on.
unfoldable at_blank_line : Text → Text × Text
unfolding split_at_text
at_blank_line raw = elim (split_at_text crlf_crlf raw) [
  | some parts ↦ (parts.0, crlf_crlf ++ parts.1)
  | none ↦ elim (split_at_text lf_lf raw) [
    | some parts ↦ (parts.0, lf_lf ++ parts.1)
    | none ↦ (raw, [])
  ]
]

unfoldable header_section : Text → Text
unfolding at_blank_line
header_section raw = (at_blank_line raw).0

abbrev or_else : Option Text → Option Text → Option Text
or_else none b = b
or_else (some a) b = some a

unfoldable pub split_headers_body : Text → Text × Text
unfolding at_blank_line strip_prefix
split_headers_body raw =
    let rest = (at_blank_line raw).1 in
    (
      (at_blank_line raw).0,
      or_empty (or_else (strip_prefix crlf_crlf rest) (strip_prefix lf_lf rest)),
    )

-- A line that starts with a space or a tab.
abbrev pub continues : Text → Bool
continues line = starts_with line (b' ' ∷ []) || starts_with line (9 ∷ [])

module _ (lib : Library) where
  -- The header that is read, when a line ends it.
  abbrev finished : Text → Text → List (Text × Text) → List (Text × Text)
  finished name value headers =
      if is_empty name then headers else (lib.to_lowercase name, trim lib.white value) ∷ headers

  unfoldable headers_from : Text → Text → List Text → List (Text × Text)
  unfolding starts_with split_once
  headers_from name value [] = finished name value []
  headers_from name value (line ∷ ls) =
      let continued = headers_from name (value ++ (b' ' ∷ trim lib.white line)) ls in
      let skipped = headers_from name value ls in
      if continues line then continued else (elim (split_once b':' line) [
        | none ↦ skipped
        | some parts ↦ finished name value (headers_from (trim lib.white parts.0) parts.1 ls)
      ])

  unfoldable pub parse_headers : Text → List (Text × Text)
  unfolding headers_from
  parse_headers section = headers_from [] [] (lines section)

unfoldable pub get_header : List (Text × Text) → Text → Option Text
unfolding same_text
get_header headers name = elim (first {A = Text × Text} (λ h. same_text h.0 name) headers) [
  | none ↦ none
  | some h ↦ some h.1
]

module _ (lib : Library) where
  abbrev list_of : List (Text × Text) → Text → List (Text × Text)
  list_of headers name = elim (get_header headers name) [
    | none ↦ []
    | some v ↦ parse_address_list lib v
  ]

  unfoldable pub address_headers_of : List (Text × Text) → AddressHeaders
  unfolding get_header parse_address_list
  address_headers_of headers = record {
    to = list_of headers (codes "to");
    cc = list_of headers (codes "cc");
    bcc = list_of headers (codes "bcc");
    reply_to = list_of headers (codes "reply-to");
  }

  unfoldable pub parse_address_headers : Text → AddressHeaders
  unfolding address_headers_of parse_headers header_section
  parse_address_headers raw = address_headers_of (parse_headers lib (header_section raw))

  abbrev nonblank : Text → List Text → List Text
  nonblank t ts = if is_empty (trim lib.white t) then ts else trim lib.white t ∷ ts

  -- The ids in angle brackets: outside them, and within one, backwards.
  unfoldable bracketed_ids : ℕ → Text → List Text
  unfolding split_once
  bracketed_ids zero s = []
  bracketed_ids (suc fuel) s = elim (split_once b'<' s) [
    | none ↦ []
    | some opened ↦ elim (split_once b'>' opened.1) [
      | none ↦ []
      | some closed ↦ nonblank closed.0 (bracketed_ids fuel closed.1)
    ]
  ]

  unfoldable msg_ids : Text → List Text
  unfolding bracketed_ids
  msg_ids raw = elim (bracketed_ids (suc (length raw)) raw) [
    | [] ↦ nonblank raw []
    | i ∷ is ↦ i ∷ is
  ]

  abbrev last : List Text → Option Text
  last [] = none
  last (t ∷ []) = some t
  last (t ∷ u ∷ ts) = last (u ∷ ts)

  unfoldable pub first_msg_id : Text → Option Text
  unfolding msg_ids
  first_msg_id raw = get_elem? (msg_ids raw) 0

  unfoldable pub last_msg_id : Text → Option Text
  unfolding msg_ids
  last_msg_id raw = last (msg_ids raw)

-- `extract_headers`
unfoldable pub extract_headers : Text → Text
unfolding split_at_text
extract_headers rfc = elim (split_at_text crlf_crlf rfc) [
  | none ↦ rfc
  | some parts ↦ parts.0 ++ (13 ∷ 10 ∷ 13 ∷ 10 ∷ [])
]

-- `split_inclusive("\r\n")`
unfoldable pub split_inclusive : Text → List Text
split_inclusive [] = []
split_inclusive (c ∷ []) = (c ∷ []) ∷ []
split_inclusive (c ∷ d ∷ s) =
    let behind = split_inclusive s in
    let here = split_inclusive (d ∷ s) in
    if c == 13 && d == 10 then (13 ∷ 10 ∷ []) ∷ behind else push c here

-- The section with the end of its last line.
abbrev pub unended : Option (Text × Text) → Text → Text
unended none rfc = rfc
unended (some parts) rfc = parts.0 ++ (13 ∷ 10 ∷ [])

module _ (lib : Library) where
  -- The name of the field, in upper case, that a line starts.
  abbrev field_name : Text → Text
  field_name line = lib.to_uppercase (trim lib.white (until (λ c. c == b':') line))

  -- `!=`
  abbrev differs : Bool → Bool → Bool
  differs true b = not b
  differs false b = b

  abbrev pub wanted : List Text → Bool → Text → Bool
  wanted fields negate line = differs negate (any (λ f. same_text f (field_name line)) fields)

  unfoldable pub filtered : List Text → Bool → Bool → List Text → Text
  unfolding starts_with until same_text
  filtered fields negate keep [] = []
  filtered fields negate keep (line ∷ ls) =
      let kept = if continues line then keep else wanted fields negate line in
      let rest = filtered fields negate kept ls in if kept then line ++ rest else rest

  unfoldable pub filter_header_fields : Text → List Text → Bool → Text
  unfolding filtered split_inclusive split_at_text
  filter_header_fields rfc fields negate =
      filtered fields negate false (split_inclusive (unended (split_at_text crlf_crlf rfc) rfc))
      ++ (13 ∷ 10 ∷ [])
