-- ===== src/Backend.antt =====
-- The trait `MailBackend` of crates/bridge/src/tuta.rs, as far as the event handler and the syncer
-- call it: what each request would answer, and the renderer of crates/bridge/src/mail. A request
-- that fails and one that finds nothing are told apart only where the callers do.
use tutabridge.Prelude.{String, Option, List}
use tutabridge.Model.{IdTuple, Mail, MailDetails, FolderInfo}

-- `Result<Option<Mail>, String>`
pub data Answer : Type 0 where
  found : Mail → Answer
  absent failed : Answer

pub record Backend : Type 0 where
  pub decrypt_inline_mail : String → Option Mail
  pub decrypt_inline_mail_set_entry : String → Option IdTuple
  pub decrypt_inline_mail_details_blob : String → Option MailDetails
  pub load_mail : String → String → Answer
  pub list_folders : Option (List FolderInfo)
  pub load_mail_ids_for_folder : FolderInfo → Option (List Mail)
  pub mail_to_rfc2822 : Mail → MailDetails → String
