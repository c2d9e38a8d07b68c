-- ===== src/Mime/Render.antt =====
-- `mail_to_rfc2822`, crates/bridge/src/mail/rfc2822.rs. A file of the SDK is the record of the fields
-- that are read here, with its decrypted bytes.
use tutabridge.Prelude.{ℕ, Option, none, some, List, [], ◌∷◌, ◌++◌, map}
use tutabridge.Prelude.Text.{Text, codes}
use tutabridge.Model.{IdTuple, Mail, MailDetails}
use tutabridge.Wire.{join}
use tutabridge.Mime.Library.{Library}
use tutabridge.Mime.Words.{encode_header_value}
use tutabridge.Mime.Addresses.{format_name_and_address, reply_to_addresses}
use tutabridge.Mime.Html.{html_to_text}
use tutabridge.Mime.Dates.{format_rfc2822_date}
use tutabridge.Mime.Transfer.{base64_encode_body}

pub record TutanotaFile : Type 0 where
  pub name : Text
  pub mime_type : Option Text
  pub cid : Option Text
  pub bytes : List ℕ

abbrev pub crlf : Text
crlf = 13 ∷ 10 ∷ []

-- Several texts, one behind the other.
abbrev pub concat : List Text → Text
concat [] = []
concat (t ∷ ts) = t ++ concat ts

abbrev pub header_line : Text → Text → Text
header_line name value = concat (name ∷ codes ": " ∷ value ∷ crlf ∷ [])

abbrev with_id : Text → Option IdTuple → Text
with_id prefix none = prefix ++ codes "_unknown"
with_id prefix (some id) =
    concat (prefix ∷ codes "_" ∷ codes id.list_id ∷ codes "_" ∷ codes id.element_id ∷ [])

unfoldable build_boundary : Mail → Text
build_boundary mail = with_id (codes "=_TutaBridge") mail.id

unfoldable build_alt_boundary : Mail → Text
build_alt_boundary mail = with_id (codes "=_TutaBridgeAlt") mail.id

abbrev pub delimiter : Text → Text
delimiter boundary = concat (codes "--" ∷ boundary ∷ crlf ∷ [])

abbrev end_delimiter : Text → Text
end_delimiter boundary = concat (codes "--" ∷ boundary ∷ codes "--" ∷ crlf ∷ [])

abbrev pub message_id : Option IdTuple → Text
message_id none = []
message_id (some id) = header_line (codes "Message-ID") (
    concat (
      codes "<"
      ∷ codes id.list_id
      ∷ codes "."
      ∷ codes id.element_id
      ∷ codes "@tutabridge.local>"
      ∷ []))

abbrev or_text : Option Text → Option Text → Option Text
or_text none b = b
or_text (some a) b = some a

abbrev or_missing : Option Text → Text
or_missing none = codes "<p>(No body available)</p>"
or_missing (some t) = t

-- The body that is shown.
abbrev body_of : Option MailDetails → Text
body_of none = codes "<p>(No body available)</p>"
body_of (some d) = or_missing (or_text d.compressed_text d.text)

abbrev or_octets : Option Text → Text
or_octets none = codes "application/octet-stream"
or_octets (some t) = t

abbrev content_id : Option Text → Text
content_id none = []
content_id (some cid) = header_line (codes "Content-ID") (concat (codes "<" ∷ cid ∷ codes ">" ∷ []))

module _ (lib : Library) where
  abbrev address_header : Text → List (Text × Text) → Text
  address_header name [] = []
  address_header name (m ∷ ms) = header_line name (
      join (codes ", ") (map {A = Text × Text} (λ a. format_name_and_address lib a.0 a.1) (m ∷ ms)))

  abbrev recipients : Mail → Option MailDetails → Text
  recipients mail none = elim mail.first_recipient [
    | none ↦ []
    | some first ↦ header_line (codes "To") (format_name_and_address lib first.0 first.1)
  ]
  recipients mail (some d) = concat (
      address_header (codes "To") d.to_recipients
      ∷ address_header (codes "Cc") d.cc_recipients
      ∷ address_header (codes "Reply-To") (reply_to_addresses lib d.reply_tos)
      ∷ [])

  abbrev encoded_part : Text → Text → Text
  encoded_part kind contents = concat (
      header_line (codes "Content-Type") kind
      ∷ header_line (codes "Content-Transfer-Encoding") (codes "base64")
      ∷ crlf
      ∷ base64_encode_body lib (lib.as_bytes contents)
      ∷ crlf
      ∷ [])

  unfoldable push_alternative_body : Text → Text → Text → Text
  unfolding base64_encode_body
  push_alternative_body boundary plain html = concat (
      header_line (codes "Content-Type")
        (concat (codes "multipart/alternative; boundary=\"" ∷ boundary ∷ codes "\"" ∷ []))
      ∷ crlf
      ∷ delimiter boundary
      ∷ encoded_part (codes "text/plain; charset=UTF-8") plain
      ∷ delimiter boundary
      ∷ encoded_part (codes "text/html; charset=UTF-8") html
      ∷ end_delimiter boundary
      ∷ [])

  unfoldable attachment_part : TutanotaFile → Text
  unfolding encode_header_value base64_encode_body
  attachment_part file =
      let name = encode_header_value lib file.name in
      concat (
        header_line (codes "Content-Type")
          (concat (or_octets file.mime_type ∷ codes "; name=\"" ∷ name ∷ codes "\"" ∷ []))
        ∷ header_line (codes "Content-Transfer-Encoding") (codes "base64")
        ∷ header_line (codes "Content-Disposition")
            (concat (codes "attachment; filename=\"" ∷ name ∷ codes "\"" ∷ []))
        ∷ content_id file.cid
        ∷ crlf
        ∷ base64_encode_body lib file.bytes
        ∷ crlf
        ∷ [])

  abbrev attachment_parts : Text → List TutanotaFile → Text
  attachment_parts boundary [] = []
  attachment_parts boundary (file ∷ files) =
      delimiter boundary ++ (attachment_part file ++ attachment_parts boundary files)

  abbrev mixed : Text → Text → List TutanotaFile → Text
  mixed boundary body [] = body
  mixed boundary body (file ∷ files) = concat (
      header_line (codes "Content-Type")
        (concat (codes "multipart/mixed; boundary=\"" ∷ boundary ∷ codes "\"" ∷ []))
      ∷ crlf
      ∷ codes "This is a multi-part message in MIME format."
      ∷ crlf
      ∷ delimiter boundary
      ∷ body
      ∷ attachment_parts boundary (file ∷ files)
      ∷ end_delimiter boundary
      ∷ [])

  unfoldable headers_of : Mail → Option MailDetails → Text
  unfolding format_rfc2822_date format_name_and_address encode_header_value reply_to_addresses join
  headers_of mail details = concat (
      header_line (codes "Date") (format_rfc2822_date mail.received_ms)
      ∷ header_line (codes "From")
          (format_name_and_address lib (codes mail.sender_name) (codes mail.sender_address))
      ∷ header_line (codes "Subject") (encode_header_value lib (codes mail.subject))
      ∷ recipients mail details
      ∷ message_id mail.id
      ∷ header_line (codes "MIME-Version") (codes "1.0")
      ∷ [])

  unfoldable pub mail_to_rfc2822 : Mail → Option MailDetails → List TutanotaFile → Text
  unfolding headers_of build_boundary build_alt_boundary push_alternative_body attachment_part
      html_to_text
  mail_to_rfc2822 mail details files =
      let body =
        push_alternative_body (build_alt_boundary mail) (html_to_text lib.white (body_of details))
          (body_of details) in
      headers_of mail details ++ mixed (build_boundary mail) body files
