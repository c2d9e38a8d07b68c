-- ===== src/Mime/Tests.antt =====
-- A patch as it is stored and read, and mailboxes with hostile names.
use tutabridge.Prelude.{
  ℕ, ◌≡◌, refl, Bool, true, false, not, ◌||◌, ◌+◌, Option, none, some, List, [], ◌∷◌, ◌++◌, ◌==◌,
  map, length, all, arith,
}
use tutabridge.Prelude.Text.{Text, codes}
use tutabridge.Search.{days_from_civil, day_number}
use tutabridge.Mime.Library.{Library}
use tutabridge.Mime.Html.{plaintext_to_tuta_html, html_to_text}
use tutabridge.Mime.HtmlRoundTrip.{newlines, html_to_text-plaintext_to_tuta_html}
use tutabridge.Mime.Addresses.{cleaned, parse_address_list}
use tutabridge.Mime.AddressLists.{address_list, parse_address_list-address_list}
use tutabridge.Mime.Dates.{days_to_ymd}
use tutabridge.Mime.Calendar.{IsDate, days_from_civil-days_to_ymd}
use tutabridge.Mime.Parser.{parse_rfc2822}
use tutabridge.Mime.Drafts.{build_draft_data}
use tutabridge.Mime.Sent.{body_sent, html_to_text-build_draft_data}

-- ASCII alone: every byte is a character, and base64 is a text of one letter for each byte.
abbrev pub ascii : Library
ascii = record {
  white = λ c. c == 32 || (c == 9 || (c == 10 || c == 13));
  to_lowercase = λ t. t;
  to_uppercase = λ t. t;
  as_bytes = λ t. t;
  from_utf8 = λ bs. some bs;
  from_utf8_lossy = λ bs. bs;
  encode64 = λ bs. map (λ b. b'A') bs;
  decode64 = λ t. some t;
}

abbrev patch : Text
patch = codes "a < b &&\r\n c > d & &lt;\n"

html_to_text-plaintext_to_tuta_html_example :
    html_to_text ascii.white (plaintext_to_tuta_html patch) ≡ newlines patch
unfolding plaintext_to_tuta_html tutabridge.Prelude.Text.trim_start tutabridge.Prelude.Text.trim_end
html_to_text-plaintext_to_tuta_html_example =
    html_to_text-plaintext_to_tuta_html ascii.white refl refl patch refl

letters :
    (bs : List ℕ)
    → all (λ c. not (c == b'"' || (c == b'<' || (c == b'>' || c == b',')))) (ascii.encode64 bs)
      ≡ true
letters [] = refl
letters (b ∷ bs) = letters bs

abbrev hostile : List (Text × Text)
hostile =
    (codes "Doe, \"J\" <x@evil>", codes "jane@x.org, eve@evil")
    ∷ ([], codes "<bob@x.org>")
    ∷ (codes "Re\r\nBcc: eve", codes "al@x.org")
    ∷ []

parse_address_list-address_list_example :
    map {A = Text × Text} (λ m. m.1) (parse_address_list ascii (address_list ascii hostile))
    ≡ map {A = Text × Text} (λ m. cleaned ascii m.1) hostile
parse_address_list-address_list_example =
    parse_address_list-address_list ascii refl refl letters hostile refl refl

days_from_civil-days_to_ymd_example :
    let date = days_to_ymd 19782 in
    IsDate date × (days_from_civil date.0 date.1.0 date.1.1 ≡ day_number 1709208000000)
days_from_civil-days_to_ymd_example = days_from_civil-days_to_ymd 1709208000000 (omega arith)

abbrev submitted : Text
submitted = codes "Subject: d\r\ncontent-type: text/plain\r\n\r\na < b &&\r\n c > d & &lt;"

html_to_text-build_draft_data_example :
    html_to_text ascii.white
      (build_draft_data (parse_rfc2822 ascii submitted) (codes "a@x.org") []).body_text
    ≡ newlines (body_sent ascii submitted)
unfolding tutabridge.Prelude.Text.contains tutabridge.Mime.Headers.get_header
    tutabridge.Mime.Headers.parse_headers tutabridge.Mime.Strings.lines_from
    tutabridge.Mime.Headers.split_headers_body tutabridge.Prelude.Text.trim_start
    tutabridge.Prelude.Text.trim_end plaintext_to_tuta_html tutabridge.Mime.Transfer.decode_transfer
html_to_text-build_draft_data_example =
    html_to_text-build_draft_data ascii submitted (codes "a@x.org") [] refl refl refl refl refl
