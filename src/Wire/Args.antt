-- ===== src/Wire/Args.antt =====
-- How the arguments of a command are read (crates/bridge/src/imap/session.rs). `white` is
-- `char::is_whitespace`.
use tutabridge.Prelude.{
  ℕ, ◌-◌, ◌^◌, Bool, ◌&&◌, ◌||◌, Option, none, some, [], ◌∷◌, map, leb, ◌==◌, if◌then◌else◌, any,
}
use tutabridge.Prelude.Text.{
  Text, codes, same_text, is_empty, contains, split_by, split_once, trim_start, trim_end, trim,
  parse_number,
}

abbrev upper_ascii : ℕ → ℕ
upper_ascii c = if leb b'a' c && leb c b'z' then c - 32 else c

abbrev pub to_ascii_uppercase : Text → Text
to_ascii_uppercase s = map upper_ascii s

abbrev pub first_with : ℕ → Text × Text → Text × Text
first_with c parts = (c ∷ parts.0, parts.1)

-- The text before the first character that passes the test, and from there on.
unfoldable pub up_to : (ℕ → Bool) → Text → Text × Text
up_to p [] = ([], [])
up_to p (c ∷ s) = let rest = up_to p s in if p c then ([], c ∷ s) else first_with c rest

-- Behind the opening quote; a missing closing quote is no error.
unfoldable pub quoted_token : Text → Text × Text
quoted_token [] = ([], [])
quoted_token (c ∷ []) = if c == b'"' || c == 92 then ([], []) else (c ∷ [], [])
quoted_token (c ∷ d ∷ s) =
    let escaped = first_with d (quoted_token s) in
    let plain = first_with c (quoted_token (d ∷ s)) in
    if c == b'"' then ([], d ∷ s) else if c == 92 then escaped else plain

unfoldable parse_imap_token : (ℕ → Bool) → Text → Text × Text
unfolding up_to quoted_token
parse_imap_token white [] = ([], [])
parse_imap_token white (c ∷ s) = if c == b'"' then quoted_token s else up_to white (c ∷ s)

unfoldable pub parse_login_args : (ℕ → Bool) → Text → Text × Text
unfolding parse_imap_token
parse_login_args white args =
    let user = parse_imap_token white (trim white args) in
    let pass = parse_imap_token white (trim_start white user.1) in (user.0, pass.0)

-- `splitn(2, ' ')`, with an empty text for a second part that is missing.
abbrev two_parts : Text → Text × Text
two_parts s = elim (split_once b' ' s) [ none ↦ (s, []) | some parts ↦ parts ]

unfoldable pub parse_command : Text → Text × (Text × Text)
parse_command line = let tagged = two_parts line in (tagged.0, two_parts tagged.1)

unfoldable parse_store_args : Text → Text × Text
parse_store_args args = two_parts args

unfoldable parse_fetch_args : (ℕ → Bool) → Text → Text × Text
unfolding up_to
parse_fetch_args white args =
    let parts = up_to (λ c. c == b'(') args in
    if is_empty parts.1 then two_parts args else (trim white parts.0, trim white parts.1)

abbrev pub is_word : Text → Text → Bool
is_word word token = same_text token word

-- What stands between FETCH items.
abbrev pub separates : (ℕ → Bool) → ℕ → Bool
separates white c = c == b'(' || (c == b')' || white c)

-- Whether FETCH items ask for the whole message.
unfoldable pub needs_body : (ℕ → Bool) → Text → Bool
needs_body white items =
    let u = to_ascii_uppercase items in
    contains u (codes "BODY[]")
    || contains u (codes "BODY.PEEK[]")
    || any (is_word (codes "RFC822")) (split_by (separates white) u)

unfoldable pub fetch_items_use_content : Text → Bool
fetch_items_use_content items =
    let u = to_ascii_uppercase items in
    contains u (codes "BODY") || contains u (codes "RFC822") || contains u (codes "ENVELOPE")

pub record AppendRequest : Type 0 where
  pub tag : Text
  pub mailbox : Text
  pub literal_size : ℕ

abbrev some_text : Text → Option Text
some_text [] = none
some_text (c ∷ s) = some (c ∷ s)

abbrev quoted_mailbox : Option (Text × Text) → Option Text
quoted_mailbox none = none
quoted_mailbox (some parts) = some parts.0

abbrev mailbox_of : (ℕ → Bool) → Text → Option Text
mailbox_of white [] = none
mailbox_of white (c ∷ s) =
    if c == b'"' then quoted_mailbox (split_once b'"' s) else some_text (up_to white (c ∷ s)).0

unfoldable pub append_first_token : (ℕ → Bool) → Text → Option Text
unfolding up_to
append_first_token white args = mailbox_of white (trim_start white args)

-- What stands behind the last `{`.
unfoldable pub after_last : ℕ → Text → Option Text
after_last c [] = none
after_last c (x ∷ s) = elim (after_last c s) [
  | some t ↦ some t
  | none ↦ if x == c then some s else none
]

abbrev size_of : Option (Text × Text) → Option ℕ
size_of none = none
size_of (some parts) = parse_number (2 ^ 64) (trim_end (λ c. c == b'+') parts.0)

unfoldable pub append_literal_size : Text → Option ℕ
unfolding after_last
append_literal_size args = elim (after_last b'{' args) [
  | none ↦ none
  | some behind ↦ size_of (split_once b'}' behind)
]

abbrev request : Text → Option Text → Option ℕ → Option AppendRequest
request tag (some mailbox) (some size) =
    some (record { tag = tag; mailbox = mailbox; literal_size = size })
request tag _ _ = none

unfoldable pub parse_append : (ℕ → Bool) → Text → Option AppendRequest
unfolding parse_command append_first_token append_literal_size
parse_append white line =
    let parts = parse_command line in
    if same_text (to_ascii_uppercase parts.1.0) (codes "APPEND")
    then request parts.0 (append_first_token white parts.1.1) (append_literal_size parts.1.1)
    else none
