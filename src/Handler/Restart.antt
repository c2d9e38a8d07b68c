-- ===== src/Handler/Restart.antt =====
-- The UID of a moved mail in memory, on disk, and after a restart
-- (crates/bridge/src/event_handler.rs, crates/bridge/src/store.rs, crates/bridge/src/sync.rs).
use tutabridge.Prelude.{ℕ, ◌%◌, ◌^◌, ◌<◌, ◌≡◌, refl, subst, String, some, [], ◌∷◌, arith}
use tutabridge.Model.{FolderInfo}
use tutabridge.Cache.{MailMetadata, next_uid, overwrite, upsert_mail_metadata, allocate_folder_uids}
use tutabridge.Cache.Keys.{find_row, merged, upsert_mail_metadata_lem}
use tutabridge.MailStore.{StoredMail, element_id, mail_in_folder}
use tutabridge.Sync.{Stores, mail_to_metadata, reload_row, uid_or_zero}
use tutabridge.Prelude.Assoc.{lookup}
use tutabridge.Handler.Create.{assign_uid_and_upsert}
use tutabridge.Handler.Move.{arrives}

meta_key :
    (stored : StoredMail) (eid folder : String) (uid : ℕ)
    → element_id stored.mail ≡ some eid
    → (mail_to_metadata stored.mail folder uid).element_id ≡ eid
unfolding mail_to_metadata
meta_key stored eid folder uid e = ground arith

assigned_row :
    (target : FolderInfo) (eid : String) (stored : StoredMail) (s : Stores)
    → element_id stored.mail ≡ some eid
    → find_row eid (assign_uid_and_upsert target eid stored s).local.mails
      ≡ some (
          merged
            (mail_to_metadata stored.mail target.id
              (uid_or_zero (lookup eid (allocate_folder_uids target.id (eid ∷ []) s.local).0)))
            (find_row eid s.local.mails))
unfolding assign_uid_and_upsert allocate_folder_uids
assigned_row target eid stored s e =
    let (uids, local) = allocate_folder_uids target.id (eid ∷ []) s.local in
    let uid = uid_or_zero (lookup eid uids) in
    let meta = mail_to_metadata stored.mail target.id uid in
    subst
      (λ k.
        find_row k (upsert_mail_metadata meta local).mails
        ≡ some (merged meta (find_row k s.local.mails)))
      (meta_key stored eid target.id uid e) (upsert_mail_metadata_lem meta local).0

-- A mail that has a row and gets a place in a folder whose counter fits 32 bits has the folder's next UID in memory. Its row,
-- which names the folder too, has the UID of before, and that is the UID that it gets when the row is
-- loaded again.
pub assign_uid_and_upsert-reload :
    (target : FolderInfo) (eid : String) (stored : StoredMail) (s : Stores) (old : MailMetadata)
    → next_uid target.id s.local < 2 ^ 32
    → element_id stored.mail ≡ some eid
    → find_row eid s.local.mails ≡ some old
    → let after = assign_uid_and_upsert target eid stored s in
      (mail_in_folder target.id eid after.store
        ≡ some (record stored { uid = next_uid target.id s.local }))
      × ((row : MailMetadata) × (find_row eid after.local.mails ≡ some row)
          × (row.folder_id ≡ target.id)
          × ((reload_row after.local row).uid ≡ old.uid % 2 ^ 32))
unfolding reload_row mail_to_metadata overwrite
assign_uid_and_upsert-reload target eid stored s old room named e =
    let meta =
      mail_to_metadata stored.mail target.id
        (uid_or_zero (lookup eid (allocate_folder_uids target.id (eid ∷ []) s.local).0)) in
    (
      arrives target eid stored s room named,
      (overwrite meta old, rw (assigned_row target eid stored s named, e) refl, refl, refl),
    )
