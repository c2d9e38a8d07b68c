-- ===== src/Model.antt =====
-- The data that the components share. `Mail`, `MailDetails` and the id tuple are entities of the
-- SDK: the records hold the fields that this repository's code reads. `FolderInfo` is that of
-- crates/bridge/src/tuta.rs, `MailSetKind` that of crates/tuta/src/folder_system.rs.
use tutabridge.Prelude.{ℕ, String, Bool, Option, List}
use tutabridge.Prelude.Text.{Text}

pub record IdTuple : Type 0 where
  pub list_id : String
  pub element_id : String

pub record Mail : Type 0 where
  pub id : Option IdTuple
  pub subject : String
  pub sender_name : String
  pub sender_address : String
  pub received_ms : ℕ
  pub unread : Bool
  pub attachments : List IdTuple
  -- Name and address.
  pub first_recipient : Option (Text × Text)

-- A decrypted body, and the mailboxes of its recipients as names and addresses.
pub record MailDetails : Type 0 where
  pub to_recipients : List (Text × Text)
  pub cc_recipients : List (Text × Text)
  pub bcc_recipients : List (Text × Text)
  pub reply_tos : List (Text × Text)
  pub compressed_text : Option Text
  pub text : Option Text

pub data MailSetKind : Type 0 where
  custom inbox sent trash archive spam draft all label imported scheduled unknown : MailSetKind

pub record FolderInfo : Type 0 where
  pub id : String
  pub list_id : String
  pub imap_path : String
  pub kind : MailSetKind
  pub special_use : Option String
  pub entries_list_id : String
