-- ===== src/Session/Response.antt =====
-- `build_fetch_response` and the readers of its items (crates/bridge/src/imap/session.rs).
use tutabridge.Prelude.{
  ℕ, Bool, ◌||◌, Option, none, some, List, [], ◌∷◌, ◌++◌, map, any, ◌==◌, drop, length,
  if◌then◌else◌,
}
use tutabridge.Prelude.Text.{Text, codes, contains, starts_with, same_text, len, trim, words}
use tutabridge.Model.{IdTuple, Mail, MailDetails}
use tutabridge.BodyCache.{BodyEntry}
use tutabridge.Wire.{
  AddressHeaders, build_envelope, decimal, join, to_ascii_uppercase, fetch_items_use_content,
}
use tutabridge.Mime.Library.{Library}
use tutabridge.Mime.Strings.{split_at_text}
use tutabridge.Mime.Addresses.{reply_to_addresses}
use tutabridge.Mime.Dates.{format_internal_date, format_rfc2822_date}
use tutabridge.Mime.Headers.{parse_address_headers, extract_headers, filter_header_fields}
use tutabridge.Mime.Render.{mail_to_rfc2822, concat}
use tutabridge.Mime.Structure.{compute_bodystructure}
use tutabridge.Session.State.{CachedMail}

abbrev no_addresses : AddressHeaders
no_addresses = record { to = []; cc = []; bcc = []; reply_to = [] }

abbrev first_only : Option (Text × Text) → AddressHeaders
first_only none = no_addresses
first_only (some m) = record no_addresses { to = m ∷ [] }

abbrev msg_id_of : Option IdTuple → Text
msg_id_of none = []
msg_id_of (some id) = concat (
    codes "<"
    ∷ codes id.list_id
    ∷ codes "."
    ∷ codes id.element_id
    ∷ codes "@tutabridge.local>"
    ∷ [])

-- A literal with what names it.
abbrev pub literal : Text → Text → Text
literal item octets =
    concat (item ∷ codes " {" ∷ decimal (len octets) ∷ codes "}" ∷ (13 ∷ 10 ∷ []) ∷ octets ∷ [])

abbrev with_body : Text → Option Text → List Text
with_body item none = []
with_body item (some rfc) = literal item rfc ∷ []

-- `HEADER.FIELDS (...)`: the section as it was sent, the names in upper case, and `NOT`.
pub record Section : Type 0 where
  pub echo : Text
  pub fields : List Text
  pub negate : Bool

abbrev header_fields : Text
header_fields = codes "HEADER.FIELDS"

abbrev header_fields_not : Text
header_fields_not = codes "HEADER.FIELDS.NOT"

-- The texts of the list, as sent and in upper case, at the first parentheses behind the keyword.
abbrev between : Option (Text × Text) → Option (Text × Text) → Option Text
between none close = none
between (some opened) none = none
between (some opened) (some closed) = some closed.0

abbrev closed_at : Option (Text × Text) → Option (Text × Text)
closed_at none = none
closed_at (some opened) = split_at_text (codes ")") opened.1

abbrev listed : Text → Option Text
listed s = between (split_at_text (codes "(") s) (closed_at (split_at_text (codes "(") s))

module _ (white : ℕ → Bool) where
  abbrev section_of : Bool → Option Text → Option Text → Option Section
  section_of negate (some sent) (some upper) = some (record {
    echo = concat (
        (if negate then header_fields_not else header_fields) ∷ codes " (" ∷ sent ∷ codes ")" ∷ []);
    fields = map (trim (λ c. c == b'"')) (words white upper);
    negate = negate;
  })
  section_of negate _ _ = none

  abbrev keyword_at : Text → Option (Text × Text) → Option Section
  keyword_at items none = none
  keyword_at items (some parts) =
      let sent = drop (length parts.0) items in
      let upper = drop (length parts.0) (to_ascii_uppercase items) in
      section_of (starts_with upper header_fields_not) (listed sent) (listed upper)

  unfoldable parse_header_fields_section : Text → Option Section
  unfolding split_at_text starts_with
  parse_header_fields_section items =
      keyword_at items (split_at_text header_fields (to_ascii_uppercase items))

  -- A whole item.
  unfoldable asks_rfc822 : Text → Bool
  unfolding same_text
  asks_rfc822 upper =
      any (λ t. same_text (trim (λ c. c == b'(' || c == b')') t) (codes "RFC822"))
        (words white upper)

module _ (lib : Library) where
  abbrev addresses_in : BodyEntry MailDetails → Option MailDetails → AddressHeaders
  addresses_in entry none = parse_address_headers lib entry.rfc2822
  addresses_in entry (some d) = record {
    to = d.to_recipients;
    cc = d.cc_recipients;
    bcc = d.bcc_recipients;
    reply_to = reply_to_addresses lib d.reply_tos;
  }

  unfoldable address_headers : Mail → Option (BodyEntry MailDetails) → AddressHeaders
  unfolding parse_address_headers reply_to_addresses
  address_headers mail none = first_only mail.first_recipient
  address_headers mail (some entry) = addresses_in entry entry.details

  abbrev placeholder : Mail → Text → Option Text
  placeholder mail items =
      if fetch_items_use_content items then some (mail_to_rfc2822 lib mail none []) else none

  -- The message that the items are read from.
  unfoldable pub content : Mail → Text → Option (BodyEntry MailDetails) → Option Text
  unfolding mail_to_rfc2822 fetch_items_use_content
  content mail items none = placeholder mail items
  content mail items (some entry) = some entry.rfc2822

  abbrev flags_of : CachedMail → List Text
  flags_of cached =
      (if cached.mail.unread then [] else codes "\\Seen" ∷ [])
      ++ (if cached.deleted then codes "\\Deleted" ∷ [] else [])

  abbrev size_of : Option Text → ℕ
  size_of none = 0
  size_of (some rfc) = len rfc

  abbrev structured : Option Text → Text
  structured none = codes "(\"TEXT\" \"HTML\" (\"CHARSET\" \"UTF-8\") NIL NIL \"BASE64\" 0 0)"
  structured (some rfc) = compute_bodystructure lib rfc

  abbrev envelope_of : CachedMail → AddressHeaders → Text
  envelope_of cached addresses =
      build_envelope (format_rfc2822_date cached.mail.received_ms) (codes cached.mail.subject)
        (codes cached.mail.sender_name, codes cached.mail.sender_address) (msg_id_of cached.mail.id)
        addresses

  abbrev when : Bool → Text → List Text
  when b t = if b then t ∷ [] else []

  abbrev fields_item : Section → Option Text → List Text
  fields_item section none = []
  fields_item section (some rfc) =
      literal (concat (codes "BODY[" ∷ section.echo ∷ codes "]" ∷ []))
        (filter_header_fields lib rfc section.fields section.negate)
      ∷ []

  abbrev header_item : Text → Option Text → List Text
  header_item upper none = []
  header_item upper (some rfc) =
      literal
        (if contains upper (codes "RFC822.HEADER")
          then codes "RFC822.HEADER"
          else codes "BODY[HEADER]")
        (extract_headers rfc)
      ∷ []

  abbrev fields_or_header : Text → Option Section → Option Text → List Text
  fields_or_header upper (some section) rfc = fields_item section rfc
  fields_or_header upper none rfc =
      if contains upper (codes "HEADER") then header_item upper rfc else []

  -- The item with contents: the whole message, fields of its header, or its header.
  unfoldable body_items : Text → Option Text → List Text
  unfolding filter_header_fields extract_headers parse_header_fields_section contains decimal len
  body_items items rfc =
      let upper = to_ascii_uppercase items in
      if contains upper (codes "BODY[]") || contains upper (codes "BODY.PEEK[]")
      then with_body (codes "BODY[]") rfc
      else fields_or_header upper (parse_header_fields_section lib.white items) rfc

  unfoldable fetch_parts : CachedMail → Text → Bool → Option (BodyEntry MailDetails) → List Text
  unfolding content address_headers body_items asks_rfc822 compute_bodystructure build_envelope
      format_internal_date format_rfc2822_date contains decimal len join
  fetch_parts cached items uid_mode body =
      let upper = to_ascii_uppercase items in
      let rfc = content cached.mail items body in
      when (uid_mode || contains upper (codes "UID")) (codes "UID " ++ decimal cached.uid)
      ++ (when (contains upper (codes "FLAGS"))
            (concat (codes "FLAGS (" ∷ join (codes " ") (flags_of cached) ∷ codes ")" ∷ []))
          ++ (when (contains upper (codes "INTERNALDATE")) (
                concat (
                  codes "INTERNALDATE \""
                  ∷ format_internal_date cached.mail.received_ms
                  ∷ codes "\""
                  ∷ []))
              ++ (when (contains upper (codes "RFC822.SIZE"))
                    (codes "RFC822.SIZE " ++ decimal (size_of rfc))
                  ++ (when (contains upper (codes "ENVELOPE"))
                        (codes "ENVELOPE " ++ envelope_of cached (address_headers cached.mail body))
                      ++ (when (contains upper (codes "BODYSTRUCTURE"))
                            (codes "BODYSTRUCTURE " ++ structured rfc)
                          ++ (body_items items rfc
                              ++ (if asks_rfc822 lib.white upper
                                  then with_body (codes "RFC822") rfc
                                  else [])))))))

  unfoldable pub build_fetch_response :
      ℕ → CachedMail → Text → Bool → Option (BodyEntry MailDetails) → Text
  unfolding fetch_parts decimal join
  build_fetch_response seq cached items uid_mode body = concat (
      codes "* "
      ∷ decimal seq
      ∷ codes " FETCH ("
      ∷ join (codes " ") (fetch_parts cached items uid_mode body)
      ∷ codes ")"
      ∷ (13 ∷ 10 ∷ [])
      ∷ [])
