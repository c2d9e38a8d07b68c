-- ===== src/Session/Append.antt =====
-- APPEND: `handle_append` of crates/bridge/src/imap/mod.rs, `append_targets_sent` and `sent_copy_uid` of
-- crates/bridge/src/imap/session.rs. The literal is what the client sends behind the request for it, `none`
-- if the stream ends before; the stores are those that the wait for the copy sees, from the one behind
-- the literal on.
use tutabridge.Prelude.{
  ℕ, String, Bool, false, Option, none, some, List, [], ◌∷◌, ◌=s◌, ltb, if◌then◌else◌,
}
use tutabridge.Prelude.Text.{Text}
use tutabridge.Model.{FolderInfo}
use tutabridge.MailStore.{StoredMail, MailStore, folder_by_imap_path, mail_in_folder}
use tutabridge.Mime.Library.{Library}
use tutabridge.Mime.Parser.{parse_rfc2822}
use tutabridge.Session.State.{
  ImapSession, Line, ok, no, continue_literal, append_uid, Call, sent_mail_element_id, Reply,
  answer,
}

pub record Append : Type 0 where
  pub mailbox : String
  pub literal_size : ℕ
  pub literal : Option (List ℕ)
  pub stores : List MailStore

abbrev pub max_append_bytes : ℕ
max_append_bytes = 26214400

abbrev names_sent : Option String → Bool
names_sent none = false
names_sent (some special_use) = special_use =s "\\Sent"

abbrev is_sent_folder : Option FolderInfo → Bool
is_sent_folder none = false
is_sent_folder (some f) = names_sent f.special_use

abbrev pub or_copy : Option StoredMail → Option ℕ → Option ℕ
or_copy none later = later
or_copy (some copy) later = some copy.uid

-- The copy is looked for in each store in turn.
unfoldable pub copy_uid : String → String → List MailStore → Option ℕ
unfolding mail_in_folder
copy_uid folder eid [] = none
copy_uid folder eid (mails ∷ later) =
    or_copy (mail_in_folder folder eid mails) (copy_uid folder eid later)

abbrev pub copy_in : Option FolderInfo → List MailStore → String → Option ℕ
copy_in none stores eid = none
copy_in (some sent) stores eid = copy_uid sent.id eid stores

-- The lines of an APPEND whose message has come, and the calls.
abbrev pub append_lines : String → Option ℕ → List Line
append_lines tag none = continue_literal ∷ ok tag ∷ []
append_lines tag (some uid) = continue_literal ∷ append_uid tag uid ∷ []

abbrev append_calls : Option Text → List Call
append_calls none = []
append_calls (some message_id) = sent_mail_element_id message_id ∷ []

-- How mailboxes are named, and which mail was sent here under a message id.
module _ (same_path : String → String → Bool) (sent_here : Text → Option String) where
  unfoldable pub append_targets_sent : String → MailStore → Bool
  unfolding folder_by_imap_path
  append_targets_sent mailbox mails = is_sent_folder (folder_by_imap_path same_path mailbox mails)

  abbrev copy_among : String → List MailStore → String → Option ℕ
  copy_among mailbox [] eid = none
  copy_among mailbox (mails ∷ later) eid =
      copy_in (folder_by_imap_path same_path mailbox mails) (mails ∷ later) eid

  abbrev pub copy_of : String → List MailStore → Option String → Option ℕ
  copy_of mailbox stores none = none
  copy_of mailbox stores (some eid) = copy_among mailbox stores eid

  unfoldable pub sent_copy_uid : String → List MailStore → Text → Option ℕ
  unfolding copy_uid folder_by_imap_path
  sent_copy_uid mailbox stores message_id = copy_of mailbox stores (sent_here message_id)

  abbrev uid_of : Append → Option Text → Option ℕ
  uid_of req none = none
  uid_of req (some message_id) = sent_copy_uid req.mailbox req.stores message_id

  abbrev with_literal : Library → String → Append → ImapSession → Option (List ℕ) → Reply
  with_literal lib tag req s none = answer s (continue_literal ∷ [])
  with_literal lib tag req s (some bytes) =
      let message_id = (parse_rfc2822 lib (lib.from_utf8_lossy bytes)).message_id in
      record {
        session = s;
        lines = append_lines tag (uid_of req message_id);
        calls = append_calls message_id;
      }

  unfoldable pub handle_append : Library → MailStore → String → Append → ImapSession → Reply
  unfolding append_targets_sent sent_copy_uid parse_rfc2822
  handle_append lib mails tag req s =
      if append_targets_sent req.mailbox mails
      then if ltb max_append_bytes req.literal_size
        then answer s (no tag ∷ [])
        else with_literal lib tag req s req.literal
      else answer s (no tag ∷ [])
