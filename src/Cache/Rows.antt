-- ===== src/Cache/Rows.antt =====
-- The statements on the table `mails` and on the UID counters of `sync_state`, and those on the
-- batch cursors (crates/bridge/src/store.rs).
use tutabridge.Prelude.{
  ℕ, suc, ◌+◌, ◌%◌, ◌^◌, String, Bool, true, not, ◌&&◌, ◌||◌, Option, none, some, List, [], ◌∷◌,
  map, ◌=s◌, ltb, if◌then◌else◌, keep, any, length,
}
use tutabridge.Prelude.Assoc.{lookup, insert}
use tutabridge.Model.{Mail}
use tutabridge.Cache.Tables.{MailMetadata, LocalStore}

-- ON CONFLICT(element_id) DO UPDATE: the columns `list_id` and `uid` are not among those set.
unfoldable pub overwrite : MailMetadata → MailMetadata → MailMetadata
overwrite meta row = record row {
  folder_id = meta.folder_id;
  subject = meta.subject;
  sender_name = meta.sender_name;
  sender_address = meta.sender_address;
  received_date_ms = meta.received_date_ms;
  unread = meta.unread;
  has_details = meta.has_details;
  mail_json = meta.mail_json;
}

-- The batch statement keeps `has_details` once it is set.
unfoldable pub overwrite_in_batch : MailMetadata → MailMetadata → MailMetadata
unfolding overwrite
overwrite_in_batch meta row = record (overwrite meta row) {
  has_details = meta.has_details || row.has_details;
}

-- INSERT … ON CONFLICT, with what happens to the row in conflict.
unfoldable pub upsert_row :
    (MailMetadata → MailMetadata → MailMetadata)
    → MailMetadata
    → List MailMetadata
    → List MailMetadata
upsert_row on_conflict meta [] = meta ∷ []
upsert_row on_conflict meta (row ∷ rows) =
    if row.element_id =s meta.element_id
    then on_conflict meta row ∷ rows
    else row ∷ upsert_row on_conflict meta rows

unfoldable pub upsert_mail_metadata : MailMetadata → LocalStore → LocalStore
upsert_mail_metadata meta s = record s { mails = upsert_row overwrite meta s.mails }

unfoldable upsert_rows : List MailMetadata → List MailMetadata → List MailMetadata
upsert_rows [] rows = rows
upsert_rows (meta ∷ metas) rows = upsert_rows metas (upsert_row overwrite_in_batch meta rows)

unfoldable pub upsert_mail_metadata_batch : List MailMetadata → LocalStore → LocalStore
unfolding upsert_rows
upsert_mail_metadata_batch metas s = record s { mails = upsert_rows metas s.mails }

-- The UIDs from `next` on, one for each id in turn; `next as u32`.
unfoldable pub number_from : ℕ → List String → List (String × ℕ) → List (String × ℕ)
number_from next [] m = m
number_from next (eid ∷ eids) m = number_from (suc next) eids (insert eid (next % 2 ^ 32) m)

-- SELECT next_uid …, 1 for a folder without a row.
unfoldable pub next_uid : String → LocalStore → ℕ
next_uid folder s = elim (lookup folder s.next_uids) [ none ↦ 1 | some n ↦ n ]

unfoldable pub allocate_folder_uids :
    String → List String → LocalStore → List (String × ℕ) × LocalStore
unfolding number_from next_uid
allocate_folder_uids folder eids s = (
  number_from (next_uid folder s) eids [],
  record s { next_uids = insert folder (next_uid folder s + length eids) s.next_uids },
)

in_folder : String → MailMetadata → Bool
in_folder folder row = row.folder_id =s folder

has_key : String → MailMetadata → Bool
has_key eid row = row.element_id =s eid

-- DELETE FROM mails WHERE element_id = …
unfoldable pub delete_row : String → List MailMetadata → List MailMetadata
unfolding has_key
delete_row eid rows = keep (λ row. not (has_key eid row)) rows

unfoldable delete_rows : List String → List MailMetadata → List MailMetadata
unfolding delete_row
delete_rows [] rows = rows
delete_rows (eid ∷ eids) rows = delete_rows eids (delete_row eid rows)

unfoldable pub delete_mails_not_in : String → List String → LocalStore → List String × LocalStore
unfolding in_folder delete_rows
delete_mails_not_in folder eids s =
    let gone =
      map (λ row. row.element_id)
        (keep (λ row. in_folder folder row && not (any (λ eid. eid =s row.element_id) eids))
          s.mails) in
    (gone, record s { mails = delete_rows gone s.mails })

unfoldable pub mark_has_details : String → LocalStore → LocalStore
unfolding has_key
mark_has_details eid s = record s {
  mails = map (λ row. if has_key eid row then record row { has_details = true } else row) s.mails;
}

unfoldable pub refresh_mail_fields : String → Mail → LocalStore → LocalStore
unfolding has_key
refresh_mail_fields eid mail s = record s {
  mails =
      map
        (λ row.
          if has_key eid row
          then record row {
            subject = mail.subject;
            sender_name = mail.sender_name;
            sender_address = mail.sender_address;
            unread = mail.unread;
            mail_json = mail;
          }
          else row)
        s.mails;
}

unfoldable pub delete_folder_mails : String → LocalStore → List String × LocalStore
unfolding in_folder
delete_folder_mails folder s = (
  map (λ row. row.element_id) (keep (in_folder folder) s.mails),
  record s { mails = keep (λ row. not (in_folder folder row)) s.mails },
)

-- ORDER BY received_date_ms DESC
place : MailMetadata → List MailMetadata → List MailMetadata
place row [] = row ∷ []
place row (r ∷ rs) =
    if ltb row.received_date_ms r.received_date_ms then r ∷ place row rs else row ∷ r ∷ rs

newest_first : List MailMetadata → List MailMetadata
unfolding place
newest_first [] = []
newest_first (row ∷ rows) = place row (newest_first rows)

unfoldable pub load_folder_metadata : String → LocalStore → List MailMetadata
unfolding in_folder newest_first
load_folder_metadata folder s = newest_first (keep (in_folder folder) s.mails)

unfoldable mail_count : String → LocalStore → ℕ
unfolding in_folder
mail_count folder s = length (keep (in_folder folder) s.mails)

unfoldable pub set_event_bus_batch_id : String → String → ℕ → LocalStore → LocalStore
set_event_bus_batch_id group batch now_ms s = record s {
  event_bus_state =
      insert group (record { last_batch_id = batch; updated_at_ms = now_ms }) s.event_bus_state;
}

unfoldable clear_event_bus_state : LocalStore → LocalStore
clear_event_bus_state s = record s { event_bus_state = [] }

unfoldable get_meta : String → LocalStore → Option String
get_meta key s = lookup key s.meta

unfoldable set_meta : String → String → LocalStore → LocalStore
set_meta key value s = record s { meta = insert key value s.meta }
