-- ===== src/Handler/Tests.antt =====
-- A mail that moves from one folder to another, in one batch.
use tutabridge.Prelude.{
  ℕ, ◌+◌, ◌≤◌, ◌^◌, ◌%◌, ◌≡◌, refl, String, Bool, true, false, Option, none, some, List, [], ◌∷◌,
  arith, ◌=s◌, if◌then◌else◌, keep, any, length,
}
use tutabridge.Prelude.Assoc.{lookup, insert}
use tutabridge.Prelude.Text.{codes}
use tutabridge.Model.{MailDetails, Mail, MailSetKind, FolderInfo}
use tutabridge.Cache.{MailMetadata, empty_store, next_uid}
use tutabridge.MailStore.{
  StoredMail, new_store, get_folder, mail_in_folder, find_mail_anywhere, find_in, is_mail,
}
use tutabridge.Backend.{Backend, absent}
use tutabridge.Sync.{Stores}
use tutabridge.Handler.Events.{
  create, delete, EntityUpdateEvent, EntityUpdateBatch, bucket_updates, bucket_from, bucket,
  bucket_entry, tutanota_app, mail_set_entry_type_id, mail_set_type_id,
}
use tutabridge.Handler.Create.{Work, apply_mail_set_entry_create, apply_mail_set_entry_delete}
use tutabridge.Handler.Batch.{apply_batch, after_creates, apply_creates, folder_by_entries}
use tutabridge.Handler.Numbering.{HasUniqueUids, HasRoom}
use tutabridge.Handler.Uids.{apply_batch-HasUniqueUids}
use tutabridge.Handler.Order.{
  concerns, is_entry_create, is_entry_delete, is_mail_create, is_mail_change, bucket_updates_lem,
}
use tutabridge.Handler.Batch.{Bridge}
use tutabridge.Handler.Create.{PendingMail, apply_pending}
use tutabridge.Handler.Inline.{apply_pending-inline}
use tutabridge.Handler.Move.{move_lem}
use tutabridge.Handler.Restart.{assign_uid_and_upsert-reload}
use tutabridge.Cache.Keys.{find_row}
use tutabridge.Sync.{reload_row}
use tutabridge.Handler.Create.{assign_uid_and_upsert}

abbrev letter : Mail
letter = record {
  id = some (record { list_id = "L"; element_id = "a" });
  subject = "hello";
  sender_name = "Ada";
  sender_address = "ada@example.org";
  received_ms = 1024;
  unread = true;
  attachments = [];
  first_recipient = none;
}

abbrev folder : String → String → FolderInfo
folder id entries = record {
  id = id;
  list_id = "m";
  imap_path = id;
  kind = MailSetKind.custom;
  special_use = none;
  entries_list_id = entries;
}

abbrev first_uid : StoredMail
first_uid = record { mail = letter; body_loaded = true; uid = 1; attachments_pending = false }

abbrev row_a : MailMetadata
row_a = record {
  list_id = "L";
  element_id = "a";
  folder_id = "f1";
  subject = "hello";
  sender_name = "Ada";
  sender_address = "ada@example.org";
  received_date_ms = 1024;
  unread = true;
  has_details = true;
  uid = 1;
  mail_json = letter;
}

abbrev before : Stores
before = record {
  store = record new_store {
    folders = ("f1", first_uid ∷ []) ∷ [];
    folder_list = folder "f1" "e1" ∷ folder "f2" "e2" ∷ [];
  };
  local = record empty_store {
    mails = row_a ∷ [];
    next_uids = ("f1", 2) ∷ ("f2", 9) ∷ [];
    emls = ("a", "Subject: hello") ∷ [];
  };
}

abbrev offline : Backend
offline = record {
  decrypt_inline_mail = λ s. none;
  decrypt_inline_mail_set_entry = λ s. none;
  decrypt_inline_mail_details_blob = λ s. none;
  load_mail = λ l e. absent;
  list_folders = none;
  load_mail_ids_for_folder = λ f. none;
  mail_to_rfc2822 = λ m d. "";
}

abbrev names_a : String → Option String
names_a id = some "a"

abbrev entry : String → Bool → EntityUpdateEvent
entry list created = record {
  application = tutanota_app;
  type_id = mail_set_entry_type_id;
  instance_list_id = list;
  instance_id = "entry";
  operation = if created then create else delete;
  instance_json = none;
  blob_instance = none;
}

abbrev folders : List (String × FolderInfo)
folders = ("e1", folder "f1" "e1") ∷ ("e2", folder "f2" "e2") ∷ []

abbrev work : Work
work = record { stores = before; fallback = []; pending = [] }

move_lem_example :
    let after =
      apply_mail_set_entry_delete names_a folders
        (entry "e1" false)
        (apply_mail_set_entry_create names_a offline folders (entry "e2" true) work).stores in
    (mail_in_folder "f2" "a" after.store
      ≡ some (record first_uid { uid = next_uid "f2" before.local }))
    × (mail_in_folder "f1" "a" after.store ≡ none)
    × (after.local.emls ≡ before.local.emls)
    × (after.local.fts ≡ before.local.fts)
    × ((f : String)
        → ("f1" =s f) ≡ false
        → ("f2" =s f) ≡ false
        → get_folder f after.store ≡ get_folder f before.store)
unfolding lookup find_mail_anywhere find_in next_uid is_mail
move_lem_example =
    move_lem names_a offline folders (entry "e2" true) (entry "e1" false) work (folder "f2" "e2")
      (folder "f1" "e1") "a" "f1" first_uid refl refl refl refl refl refl refl (omega arith)

assign_uid_and_upsert-reload_example :
    let after = assign_uid_and_upsert (folder "f2" "e2") "a" first_uid before in
    (mail_in_folder "f2" "a" after.store
      ≡ some (record first_uid { uid = next_uid "f2" before.local }))
    × ((row : MailMetadata) × (find_row "a" after.local.mails ≡ some row)
        × (row.folder_id ≡ "f2")
        × ((reload_row after.local row).uid ≡ row_a.uid % 2 ^ 32))
unfolding next_uid lookup
assign_uid_and_upsert-reload_example =
    assign_uid_and_upsert-reload (folder "f2" "e2") "a" first_uid before row_a (omega arith) refl
      refl

-- The two UIDs differ: 9 in memory, and 1 on disk.
uids_differ : (next_uid "f2" before.local ≡ 9) × (row_a.uid ≡ 1)
unfolding next_uid lookup
uids_differ = (refl, refl)

abbrev moved : EntityUpdateBatch
moved = record {
  batch_id = "b1";
  group_id = "g1";
  updates = entry "e2" true ∷ entry "e1" false ∷ [];
}

before-HasUniqueUids : HasUniqueUids before
unfolding next_uid get_folder lookup
before-HasUniqueUids f = ground arith

abbrev counter : Option ℕ → ℕ
counter none = 1
counter (some n) = n

small : (b c : Bool) → counter (if b then some 2 else if c then some 9 else none) + 1 ≤ 2 ^ 32
small true c = omega arith
small false true = omega arith
small false false = omega arith

before-HasRoom : HasRoom (length (bucket_updates moved.updates).mail_set_entry_creates) before
unfolding next_uid lookup bucket_updates bucket bucket_from bucket_entry
before-HasRoom f = small ("f1" =s f) ("f2" =s f)

apply_batch-HasUniqueUids_example : HasUniqueUids (apply_batch names_a offline moved before)
unfolding after_creates apply_creates bucket_updates bucket apply_mail_set_entry_create lookup
    folder_by_entries insert find_mail_anywhere is_mail
apply_batch-HasUniqueUids_example =
    apply_batch-HasUniqueUids names_a offline moved before before-HasUniqueUids before-HasRoom refl

bucket_updates_lem_example :
    let b = bucket_updates moved.updates in
    (b.mail_set_entry_creates ≡ keep is_entry_create moved.updates)
    × (b.mail_set_entry_deletes ≡ keep is_entry_delete moved.updates)
    × (b.mail_creates ≡ keep is_mail_create moved.updates)
    × (b.mail_events ≡ keep is_mail_change moved.updates)
    × (b.folder_list_dirty ≡ any (concerns mail_set_type_id) moved.updates)
bucket_updates_lem_example = bucket_updates_lem moved.updates

abbrev bridge : Bridge
bridge = record { stores = before; last_batch_ids = ("g0", "b0") ∷ ("g1", "b9") ∷ [] }

abbrev greeting : MailDetails
greeting = record {
  to_recipients = [];
  cc_recipients = [];
  bcc_recipients = [];
  reply_tos = [];
  compressed_text = none;
  text = some (codes "Hello");
}

abbrev arrived : PendingMail
arrived = record { mail = letter; details = some greeting }

apply_pending-inline_example :
    let after = apply_pending offline (folder "f2" "e2") "a" arrived before in
    (mail_in_folder "f2" "a" after.store
      ≡ some (record {
        mail = letter;
        body_loaded = true;
        uid = next_uid "f2" before.local;
        attachments_pending = false;
      }))
    × (lookup "a" after.local.emls ≡ some (offline.mail_to_rfc2822 letter greeting))
    × (after.local.fts ≡ before.local.fts)
unfolding next_uid lookup
apply_pending-inline_example =
    apply_pending-inline offline (folder "f2" "e2") "a" arrived greeting before refl refl refl
      (omega arith)
