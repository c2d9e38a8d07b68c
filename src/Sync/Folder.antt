-- ===== src/Sync/Folder.antt =====
-- `mail_to_metadata`, `load_cached_folder`, `sync_folder` and `prefetch_window` of
-- crates/bridge/src/sync.rs. The database and the disk answer without an error.
use mathlib.Core.List.{reverse}
use tutabridge.Prelude.{
  ℕ, ◌%◌, ◌^◌, String, Bool, true, false, not, ◌&&◌, Option, none, some, List, [], ◌∷◌, map,
  if◌then◌else◌, keep,
}
use tutabridge.Prelude.Assoc.{lookup, insert}
use tutabridge.Model.{IdTuple, Mail, FolderInfo}
use tutabridge.Cache.{
  MailMetadata, LocalStore, upsert_mail_metadata_batch, allocate_folder_uids, delete_mails_not_in,
  delete_eml, unindex_body, load_folder_metadata, has_eml, mark_has_details,
}
use tutabridge.MailStore.{StoredMail, MailStore, element_id, get_folder, set_folder}
use tutabridge.Backend.{Backend}

-- The two stores that a task shares.
pub record Stores : Type 0 where
  pub store : MailStore
  pub local : LocalStore

abbrev id_or_empty : Option IdTuple → IdTuple
id_or_empty none = record { list_id = ""; element_id = "" }
id_or_empty (some t) = t

unfoldable pub mail_to_metadata : Mail → String → ℕ → MailMetadata
mail_to_metadata mail folder uid =
    let id = id_or_empty mail.id in
    record {
      list_id = id.list_id;
      element_id = id.element_id;
      folder_id = folder;
      subject = mail.subject;
      sender_name = mail.sender_name;
      sender_address = mail.sender_address;
      received_date_ms = mail.received_ms;
      unread = mail.unread;
      has_details = false;
      uid = uid;
      mail_json = mail;
    }

-- `meta.uid as u32`
unfoldable pub reload_row : LocalStore → MailMetadata → StoredMail
reload_row local meta = record {
  mail = meta.mail_json;
  body_loaded = has_eml meta.element_id local;
  uid = meta.uid % 2 ^ 32;
  attachments_pending = false;
}

heal_row : MailMetadata → LocalStore → LocalStore
heal_row meta local =
    if has_eml meta.element_id local && not meta.has_details
    then mark_has_details meta.element_id local
    else local

pub heal_rows : List MailMetadata → LocalStore → LocalStore
unfolding heal_row
heal_rows [] local = local
heal_rows (meta ∷ metas) local = heal_rows metas (heal_row meta local)

unfoldable pub load_cached_folder : FolderInfo → Stores → Stores
unfolding heal_rows reload_row
load_cached_folder folder s =
    let metas = load_folder_metadata folder.id s.local in
    record {
      store = set_folder folder.id (map (reload_row s.local) metas) s.store;
      local = heal_rows metas s.local;
    }

-- A later entry of the same id replaces an earlier one.
unfoldable pub by_id : List StoredMail → List (String × StoredMail) → List (String × StoredMail)
by_id [] m = m
by_id (x ∷ xs) m = elim (element_id x.mail) [
  | none ↦ by_id xs m
  | some eid ↦ by_id xs (insert eid x m)
]

unfoldable pub ids_of : List Mail → List String
ids_of [] = []
ids_of (m ∷ ms) = elim (element_id m) [ none ↦ ids_of ms | some eid ↦ eid ∷ ids_of ms ]

abbrev pub is_new : List (String × StoredMail) → String → Bool
is_new existing eid = elim (lookup eid existing) [ none ↦ true | some m ↦ false ]

abbrev pub uid_or_zero : Option ℕ → ℕ
uid_or_zero none = 0
uid_or_zero (some n) = n

-- A mail whose body was not fetched yet.
abbrev pub unseen : Mail → ℕ → StoredMail
unseen mail uid = record {
  mail = mail;
  body_loaded = false;
  uid = uid;
  attachments_pending = false;
}

-- The mail as it is listed, with what was known of it.
unfoldable pub listed : List (String × StoredMail) → List (String × ℕ) → Mail → StoredMail
listed existing new_uids mail = elim (element_id mail) [
  | none ↦ unseen mail 0
  | some eid ↦ elim (lookup eid existing) [
    | none ↦ unseen mail (uid_or_zero (lookup eid new_uids))
    | some old ↦ record old { mail = mail }
  ]
]

pub forget_bodies : List String → LocalStore → LocalStore
forget_bodies [] local = local
forget_bodies (eid ∷ eids) local = forget_bodies eids (unindex_body eid (delete_eml eid local))

-- UIDs for the ids that are new; the counter is left alone if there are none.
abbrev new_uids_of : String → List String → LocalStore → List (String × ℕ) × LocalStore
new_uids_of folder [] local = ([], local)
new_uids_of folder (eid ∷ eids) local = allocate_folder_uids folder (eid ∷ eids) local

-- What follows a listing of the folder that did not fail.
unfoldable pub apply_listing : FolderInfo → List Mail → Stores → Stores
unfolding forget_bodies by_id ids_of listed
apply_listing folder new_mails s =
    let existing = by_id (get_folder folder.id s.store) [] in
    let new_ids = keep (is_new existing) (ids_of (reverse new_mails)) in
    let (new_uids, local) = new_uids_of folder.id new_ids s.local in
    let updated = map (listed existing new_uids) new_mails in
    let metas = map (λ m. mail_to_metadata m.mail folder.id m.uid) updated in
    let (deleted, kept) =
      delete_mails_not_in folder.id (ids_of new_mails) (upsert_mail_metadata_batch metas local) in
    record { store = set_folder folder.id updated s.store; local = forget_bodies deleted kept }

-- `none` is the error that `?` returns; nothing has changed then.
unfoldable pub sync_folder : Backend → FolderInfo → Stores → Option Stores
unfolding apply_listing
sync_folder backend folder s = elim (backend.load_mail_ids_for_folder folder) [
  | none ↦ none
  | some new_mails ↦ some (apply_listing folder new_mails s)
]
