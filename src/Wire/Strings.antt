-- ===== src/Wire/Strings.antt =====
-- How a text, an address and an envelope are written (crates/bridge/src/imap/session.rs). The date and
-- the message id are texts of their own.
use tutabridge.Prelude.{
  ℕ, zero, suc, ◌+◌, ◌/◌, ◌%◌, Bool, ◌||◌, Option, none, some, List, [], ◌∷◌, ◌++◌, map, leb, ltb,
  ◌==◌, if◌then◌else◌, any,
}
use tutabridge.Prelude.Text.{Text, codes, is_empty, len, split_once}

-- The decimal digits of a number, at most `fuel` of them and one more.
unfoldable pub decimal_from : ℕ → ℕ → Text
decimal_from zero n = (b'0' + n % 10) ∷ []
decimal_from (suc fuel) n =
    let front = decimal_from fuel (n / 10) in
    if ltb n 10 then (b'0' + n) ∷ [] else front ++ (b'0' + n % 10) ∷ []

-- `format!("{}", n)`
unfoldable pub decimal : ℕ → Text
unfolding decimal_from
decimal n = decimal_from n n

-- `replace`, of a character by a text.
unfoldable pub replace : ℕ → Text → Text → Text
replace c by [] = []
replace c by (x ∷ s) = let rest = replace c by s in if x == c then by ++ rest else x ∷ rest

abbrev pub wants_literal : ℕ → Bool
wants_literal c = c == 13 || (c == 10 || leb 128 c)

unfoldable pub imap_string : Text → Text
unfolding replace decimal len
imap_string s =
    if is_empty s
    then b'"' ∷ b'"' ∷ []
    else if any wants_literal s
    then b'{' ∷ (decimal (len s) ++ (b'}' ∷ 13 ∷ 10 ∷ s))
    else b'"' ∷ (replace b'"' (92 ∷ b'"' ∷ []) (replace 92 (92 ∷ 92 ∷ []) s) ++ b'"' ∷ [])

-- `join(" ")`, and with other texts between.
unfoldable pub join : Text → List Text → Text
join sep [] = []
join sep (t ∷ []) = t
join sep (t ∷ u ∷ ts) = t ++ (sep ++ join sep (u ∷ ts))

abbrev user_and_domain : Text → Option (Text × Text) → Text × Text
user_and_domain address none = (address, [])
user_and_domain address (some parts) = parts

unfoldable format_envelope_mailbox : Text × Text → Text
unfolding imap_string
format_envelope_mailbox (name, address) =
    let parts = user_and_domain address (split_once b'@' address) in
    let written = if is_empty name then codes "NIL" else imap_string name in
    b'('
    ∷ (written
        ++ (codes " NIL " ++ (imap_string parts.0 ++ (b' ' ∷ (imap_string parts.1 ++ b')' ∷ [])))))

unfoldable envelope_address_list : List (Text × Text) → Text
unfolding join format_envelope_mailbox
envelope_address_list [] = codes "NIL"
envelope_address_list (m ∷ ms) =
    b'(' ∷ (join (codes " ") (map format_envelope_mailbox (m ∷ ms)) ++ b')' ∷ [])

pub record AddressHeaders : Type 0 where
  pub to : List (Text × Text)
  pub cc : List (Text × Text)
  pub bcc : List (Text × Text)
  pub reply_to : List (Text × Text)

abbrev or_else : Text → List (Text × Text) → Text
or_else from [] = from
or_else from (m ∷ ms) = envelope_address_list (m ∷ ms)

-- `date` is the formatted date of receipt, `msg_id` the formatted id, empty for a mail without one.
unfoldable pub build_envelope : Text → Text → Text × Text → Text → AddressHeaders → Text
unfolding envelope_address_list imap_string join
build_envelope date subject sender msg_id addresses =
    let from = envelope_address_list (sender ∷ []) in
    b'('
    ∷ (join (codes " ") (
          (b'"' ∷ (date ++ b'"' ∷ []))
          ∷ imap_string subject
          ∷ from
          ∷ from
          ∷ or_else from addresses.reply_to
          ∷ envelope_address_list addresses.to
          ∷ envelope_address_list addresses.cc
          ∷ codes "NIL"
          ∷ codes "NIL"
          ∷ imap_string msg_id
          ∷ [])
        ++ b')' ∷ [])
