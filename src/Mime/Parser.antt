-- ===== src/Mime/Parser.antt =====
-- `parse_rfc2822`, crates/bridge/src/mail/parser.rs. Multipart bodies nest at most as deep as the fuel
-- says; the parser gives it the length of the message.
use tutabridge.Prelude.{
  ℕ, zero, suc, Bool, true, false, not, ◌&&◌, ◌||◌, Option, none, some, List, [], ◌∷◌, ◌++◌, ◌==◌,
  length, if◌then◌else◌,
}
use tutabridge.Prelude.Text.{Text, codes, contains, is_empty, trim}
use tutabridge.Mime.Library.{Library}
use tutabridge.Mime.Strings.{until, or_empty}
use tutabridge.Mime.Words.{decode_header_value}
use tutabridge.Mime.Addresses.{parse_address_single}
use tutabridge.Mime.Headers.{
  split_headers_body, parse_headers, get_header, address_headers_of, first_msg_id, last_msg_id,
}
use tutabridge.Mime.Html.{wrap_plain_as_html}
use tutabridge.Mime.Transfer.{decode_transfer, decode_quoted_printable, unspaced}
use tutabridge.Mime.Parts.{extract_boundary, extract_param, split_mime_parts}

pub record Attachment : Type 0 where
  pub filename : Text
  pub mime_type : Text
  pub bytes : List ℕ

pub record ParsedMessage : Type 0 where
  pub from_address : Text
  pub from_name : Text
  pub to : List (Text × Text)
  pub cc : List (Text × Text)
  pub bcc : List (Text × Text)
  pub reply_to : List (Text × Text)
  pub subject : Text
  pub body_html : Text
  pub body_text : Option Text
  pub is_plaintext : Bool
  pub message_id : Option Text
  pub in_reply_to : Option Text
  pub attachments : List Attachment

-- What a body is made of: its HTML, its files, and its text if it has no HTML.
pub record Body : Type 0 where
  pub html : Text
  pub files : List Attachment
  pub text : Option Text

-- What the walk over the parts has found.
pub record Found : Type 0 where
  pub html_part : Option Text
  pub text_part : Option Text
  pub files : List Attachment

abbrev pub is_some : {A : Type 0} → Option A → Bool
is_some none = false
is_some (some a) = true

abbrev pub or_else : {A : Type 0} → Option A → Option A → Option A
or_else none b = b
or_else (some a) b = some a

-- The headers of one part, and its body.
pub record Part : Type 0 where
  pub content_type : Text
  pub encoding : Text
  pub disposition : Text
  pub body : Text

abbrev pub bytes_or_none : Option (List ℕ) → List ℕ
bytes_or_none none = []
bytes_or_none (some bytes) = bytes

abbrev pub or_default : Text → Option Text → Text
or_default d none = d
or_default d (some t) = t

abbrev or_octets : Text → Text
or_octets t = if is_empty t then codes "application/octet-stream" else t

module _ (lib : Library) where
  unfoldable part_of : Text → Part
  unfolding split_headers_body parse_headers get_header
  part_of part =
      let headers = parse_headers lib (split_headers_body part).0 in
      record {
        content_type = or_empty (get_header headers (codes "content-type"));
        encoding =
            lib.to_lowercase (or_empty (get_header headers (codes "content-transfer-encoding")));
        disposition = or_empty (get_header headers (codes "content-disposition"));
        body = (split_headers_body part).1;
      }

  unfoldable is_attachment : Part → Bool
  unfolding contains extract_param
  is_attachment p =
      contains (lib.to_lowercase p.disposition) (codes "attachment")
      || (is_some (extract_param lib p.content_type (codes "name"))
          && not (contains (lib.to_lowercase p.content_type) (codes "text/")))

  unfoldable attachment_of : Part → Attachment
  unfolding contains extract_param decode_header_value until decode_quoted_printable
  attachment_of p = record {
    filename = decode_header_value lib (
        or_default (codes "attachment.bin") (
          or_else (extract_param lib p.disposition (codes "filename"))
            (extract_param lib p.content_type (codes "name"))));
    mime_type =
        or_octets (lib.to_lowercase (trim lib.white (until (λ c. c == b';') p.content_type)));
    bytes =
        if contains p.encoding (codes "base64")
        then bytes_or_none (lib.decode64 (unspaced lib p.body))
        else if contains p.encoding (codes "quoted-printable")
        then lib.as_bytes (decode_quoted_printable lib p.body)
        else lib.as_bytes p.body;
  }

  -- What a nested multipart body adds.
  unfoldable add_nested : Body → Found → Found
  add_nested b f = record {
    html_part =
        if is_some b.text || (is_some f.html_part || is_empty b.html)
        then f.html_part
        else some b.html;
    text_part = or_else f.text_part b.text;
    files = f.files ++ b.files;
  }

  unfoldable add_part : Part → Found → Found
  unfolding is_attachment attachment_of contains decode_transfer
  add_part p f =
      let ct = lib.to_lowercase p.content_type in
      let decoded = decode_transfer lib p.body p.encoding in
      if is_attachment p
      then record f { files = f.files ++ attachment_of p ∷ [] }
      else if contains ct (codes "text/html") && not (is_some f.html_part)
      then record f { html_part = some decoded }
      else if contains ct (codes "text/plain")
          && (not (is_some f.html_part) && not (is_some f.text_part))
      then record f { text_part = some decoded }
      else f

  -- Along the parts, with what takes apart a nested body.
  unfoldable walk_parts : (Text → Text → Body) → List Text → Found → Found
  unfolding part_of add_part add_nested contains
  walk_parts nest [] f = f
  walk_parts nest (part ∷ ps) f =
      let p = part_of part in
      walk_parts nest ps (
        if contains (lib.to_lowercase p.content_type) (codes "multipart/")
        then add_nested (nest p.body p.content_type) f
        else add_part p f)

  abbrev settled : Text → Found → Option Text → Option Text → Body
  settled body f (some html) text = record { html = html; files = f.files; text = none }
  settled body f none (some raw) = record {
    html = wrap_plain_as_html raw;
    files = f.files;
    text = some raw;
  }
  settled body f none none = record { html = body; files = f.files; text = none }

  abbrev bounded : (Text → Text → Body) → Text → Option Text → Body
  bounded nest body none = record { html = body; files = []; text = none }
  bounded nest body (some boundary) =
      let f =
        walk_parts nest (split_mime_parts body boundary)
          (record { html_part = none; text_part = none; files = [] }) in
      settled body f f.html_part f.text_part

  unfoldable extract_multipart_body_and_attachments : ℕ → Text → Text → Body
  unfolding walk_parts split_mime_parts extract_boundary wrap_plain_as_html
  extract_multipart_body_and_attachments zero body content_type = record {
    html = body;
    files = [];
    text = none;
  }
  extract_multipart_body_and_attachments (suc fuel) body content_type =
      bounded (extract_multipart_body_and_attachments fuel) body (extract_boundary lib content_type)

  -- A body that is not multipart: without a type it is plain text.
  unfoldable pub single_body : Text → Text → Text → Body
  unfolding decode_transfer wrap_plain_as_html contains
  single_body body content_type encoding =
      let decoded = decode_transfer lib body encoding in
      let plain = contains content_type (codes "text/plain") in
      record {
        html =
            if plain && not (contains content_type (codes "text/html"))
            then wrap_plain_as_html decoded
            else decoded;
        files = [];
        text = if is_empty content_type || plain then some decoded else none;
      }

  abbrev id_of : (Text → Option Text) → Option Text → Option Text
  id_of f none = none
  id_of f (some t) = f t

  unfoldable pub parse_rfc2822 : Text → ParsedMessage
  unfolding split_headers_body parse_headers get_header parse_address_single address_headers_of
      first_msg_id last_msg_id single_body extract_multipart_body_and_attachments
      decode_header_value contains
  parse_rfc2822 raw =
      let headers = parse_headers lib (split_headers_body raw).0 in
      let body = (split_headers_body raw).1 in
      let from = parse_address_single lib (or_empty (get_header headers (codes "from"))) in
      let lists = address_headers_of lib headers in
      let content_type = or_empty (get_header headers (codes "content-type")) in
      let encoding =
        lib.to_lowercase (or_empty (get_header headers (codes "content-transfer-encoding"))) in
      let ct = lib.to_lowercase content_type in
      let made =
        if contains ct (codes "multipart/")
        then extract_multipart_body_and_attachments (length raw) body content_type
        else single_body body ct encoding in
      record {
        from_address = from.1;
        from_name = from.0;
        to = lists.to;
        cc = lists.cc;
        bcc = lists.bcc;
        reply_to = lists.reply_to;
        subject = elim (get_header headers (codes "subject")) [
          | none ↦ []
          | some s ↦ decode_header_value lib s
        ];
        body_html = made.html;
        body_text = made.text;
        is_plaintext = is_some made.text;
        message_id = id_of (first_msg_id lib) (get_header headers (codes "message-id"));
        in_reply_to =
            or_else (id_of (first_msg_id lib) (get_header headers (codes "in-reply-to")))
              (id_of (last_msg_id lib) (get_header headers (codes "references")));
        attachments = made.files;
      }
