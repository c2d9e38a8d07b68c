-- ===== src/Mime/Drafts.antt =====
-- The draft that a submitted message becomes, and the ids of mails in the headers of an answer
-- (crates/bridge/src/tuta.rs). The fields that are always the same are left out.
use tutabridge.Prelude.{
  Bool, true, ◌&&◌, ◌||◌, Option, none, some, String, List, ◌∷◌, ◌++◌, map, any, if◌then◌else◌,
}
use tutabridge.Prelude.Text.{Text, codes, same_text, is_empty, split_once, trim}
use tutabridge.Model.{MailSetKind, inbox, sent, trash, archive, spam, draft}
use tutabridge.Mime.Library.{Library}
use tutabridge.Mime.Strings.{strip_suffix, to_ascii_lowercase}
use tutabridge.Mime.Html.{plaintext_to_tuta_html}
use tutabridge.Mime.Parser.{ParsedMessage, Attachment}

unfoldable system_imap_name : MailSetKind → Option String
system_imap_name inbox = some "INBOX"
system_imap_name sent = some "Sent"
system_imap_name draft = some "Drafts"
system_imap_name trash = some "Trash"
system_imap_name archive = some "Archive"
system_imap_name spam = some "Spam"
system_imap_name _ = none

unfoldable system_special_use : MailSetKind → Option String
system_special_use sent = some "\\Sent"
system_special_use draft = some "\\Drafts"
system_special_use trash = some "\\Trash"
system_special_use archive = some "\\Archive"
system_special_use spam = some "\\Junk"
system_special_use _ = none

abbrev same_ignoring_case : Text → Text → Bool
same_ignoring_case a b = same_text (to_ascii_lowercase a) (to_ascii_lowercase b)

unfoldable is_self_recipient : ParsedMessage → Text → Bool
unfolding to_ascii_lowercase same_text
is_self_recipient msg own =
    same_ignoring_case msg.from_address own
    && any {A = Text × Text} (λ m. same_ignoring_case m.1 own) (msg.to ++ (msg.cc ++ msg.bcc))

abbrev both_filled : Option (Text × Text) → Option (Text × Text)
both_filled none = none
both_filled (some parts) = if is_empty parts.0 || is_empty parts.1 then none else some parts

abbrev split_id : Option Text → Option (Text × Text)
split_id none = none
split_id (some rest) = both_filled (split_once b'.' rest)

abbrev pub local_domain : Text
local_domain = codes "@tutabridge.local"

unfoldable pub parse_bridge_local_id : Text → Option (Text × Text)
unfolding strip_suffix split_once
parse_bridge_local_id id = split_id (strip_suffix local_domain id)

unfoldable self_send_cache_key : Library → Text → Text → Text → Text
self_send_cache_key lib subject sender recipient =
    let tidy : Text → Text = λ t. lib.to_lowercase (trim lib.white t) in
    tidy subject ++ (b'|' ∷ (tidy sender ++ (b'|' ∷ tidy recipient)))

pub record DraftData : Type 0 where
  pub subject : Text
  pub body_text : Text
  pub sender_mail_address : Text
  pub sender_name : Text
  pub compressed_body_text : Text
  -- Names and addresses.
  pub to_recipients : List (Text × Text)
  pub cc_recipients : List (Text × Text)
  pub bcc_recipients : List (Text × Text)
  pub added_attachments : List Attachment

abbrev or_address : Text → Text → Text
or_address name address = if is_empty name then address else name

unfoldable build_draft_recipients : List (Text × Text) → List (Text × Text)
build_draft_recipients ms = map {A = Text × Text} (λ m. (or_address m.0 m.1, m.1)) ms

abbrev pub draft_body : Bool → Option Text → Text → Text
draft_body true (some text) html = plaintext_to_tuta_html text
draft_body _ _ html = html

unfoldable pub build_draft_data : ParsedMessage → Text → List Attachment → DraftData
unfolding plaintext_to_tuta_html build_draft_recipients
build_draft_data msg sender files =
    let body = draft_body msg.is_plaintext msg.body_text msg.body_html in
    record {
      subject = msg.subject;
      body_text = body;
      sender_mail_address = sender;
      sender_name = or_address msg.from_name sender;
      compressed_body_text = body;
      to_recipients = build_draft_recipients msg.to;
      cc_recipients = build_draft_recipients msg.cc;
      bcc_recipients = build_draft_recipients msg.bcc;
      added_attachments = files;
    }
