-- ===== src/Wire/Tests.antt =====
-- Strings and arguments on the wire.
use tutabridge.Prelude.{ℕ, ◌≡◌, refl, Bool, ◌||◌, some, ◌++◌, ◌==◌}
use tutabridge.Prelude.Text.{
  Text, codes, same_text, split_once, trim_start, trim_end, parse_number, digits_value,
}
use tutabridge.Wire.Strings.{imap_string}
use tutabridge.Wire.Args.{
  parse_append, parse_command, append_first_token, append_literal_size, up_to, after_last,
}
use tutabridge.Wire.Reading.{read_string, read_string-imap_string}

abbrev blank : ℕ → Bool
blank c = c == 32 || (c == 10 || c == 13)

-- A subject with a line break, which could end the line that it stands in.
abbrev subject : Text
subject = codes "Hi \"you\"\r\n* BYE"

read_string-imap_string_example :
    read_string (imap_string subject ++ codes " NIL") ≡ some (subject, codes " NIL")
read_string-imap_string_example = read_string-imap_string subject (codes " NIL")

append_line :
    parse_append blank (codes "a1 APPEND \"Sent\" (\\Seen) {310+}")
    ≡ some (record { tag = codes "a1"; mailbox = codes "Sent"; literal_size = 310 })
unfolding parse_append
append_line =
    unfold split_once same_text parse_command append_first_token append_literal_size trim_start
      trim_end up_to after_last parse_number digits_value in
    refl
