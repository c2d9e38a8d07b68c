-- ===== src/Cache/Tables.antt =====
-- The tables of `LocalStore` (crates/bridge/src/store.rs). `mails` has the element id for primary
-- key; `next_uids` is `sync_state`; `fts` is `mail_fts`; `emls` holds, by element id, what the
-- encrypted file decrypts to. The column `mail_json` holds the mail that its text stands for.
use tutabridge.Prelude.{ℕ, String, Bool, List, []}
use tutabridge.Model.{Mail}

pub record MailMetadata : Type 0 where
  pub list_id : String
  pub element_id : String
  pub folder_id : String
  pub subject : String
  pub sender_name : String
  pub sender_address : String
  pub received_date_ms : ℕ
  pub unread : Bool
  pub has_details : Bool
  pub uid : ℕ
  pub mail_json : Mail

pub record BatchCursor : Type 0 where
  pub last_batch_id : String
  pub updated_at_ms : ℕ

pub record LocalStore : Type 0 where
  pub mails : List MailMetadata
  pub next_uids : List (String × ℕ)
  pub meta : List (String × String)
  pub event_bus_state : List (String × BatchCursor)
  pub fts : List (String × String)
  pub emls : List (String × String)

abbrev pub empty_store : LocalStore
empty_store = record {
  mails = [];
  next_uids = [];
  meta = [];
  event_bus_state = [];
  fts = [];
  emls = [];
}
