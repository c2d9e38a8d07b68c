-- ===== src/Handler/Batch.antt =====
-- `apply_batch`, `process` and the folder list (crates/bridge/src/event_handler.rs). The batch
-- cursor is kept twice: in the map that the event bus client reads, and on disk.
use tutabridge.Prelude.{ℕ, String, Option, none, some, List, [], ◌∷◌, map, if◌then◌else◌}
use tutabridge.Prelude.Assoc.{lookup, insert}
use tutabridge.Model.{Mail, MailDetails, FolderInfo}
use tutabridge.Cache.{LocalStore, delete_folder_mails, delete_eml, set_event_bus_batch_id}
use tutabridge.MailStore.{set_folder_list, prune_unknown_folders}
use tutabridge.Backend.{Backend}
use tutabridge.Sync.{Stores, sync_folder}
use tutabridge.Handler.Events.{EntityUpdateEvent, EntityUpdateBatch, bucket_updates}
use tutabridge.Handler.Create.{
  PendingMail, Work, apply_mail_set_entry_create, apply_mail_set_entry_delete, apply_mail_event,
}

blob_details : Backend → Option String → Option MailDetails
blob_details backend none = none
blob_details backend (some blob) = backend.decrypt_inline_mail_details_blob blob

predecrypt_mail :
    Backend
    → EntityUpdateEvent
    → Option Mail
    → List (String × PendingMail)
    → List (String × PendingMail)
unfolding blob_details
predecrypt_mail backend ev none out = out
predecrypt_mail backend ev (some mail) out =
    insert ev.instance_id (record { mail = mail; details = blob_details backend ev.blob_instance })
      out

predecrypt_one :
    Backend → EntityUpdateEvent → List (String × PendingMail) → List (String × PendingMail)
unfolding predecrypt_mail
predecrypt_one backend ev out = elim ev.instance_json [
  | none ↦ out
  | some json ↦ predecrypt_mail backend ev (backend.decrypt_inline_mail json) out
]

unfoldable pub predecrypt_from :
    Backend → List EntityUpdateEvent → List (String × PendingMail) → List (String × PendingMail)
unfolding predecrypt_one
predecrypt_from backend [] out = out
predecrypt_from backend (ev ∷ evs) out = predecrypt_from backend evs (predecrypt_one backend ev out)

unfoldable pub predecrypt_mail_creates :
    Backend → List EntityUpdateEvent → List (String × PendingMail)
unfolding predecrypt_from
predecrypt_mail_creates backend evs = predecrypt_from backend evs []

unfoldable pub delete_emls : List String → LocalStore → LocalStore
delete_emls [] local = local
delete_emls (eid ∷ eids) local = delete_emls eids (delete_eml eid local)

unfoldable pub drop_folder : String → LocalStore → LocalStore
unfolding delete_emls
drop_folder folder local =
    let (eids, rest) = delete_folder_mails folder local in delete_emls eids rest

unfoldable pub drop_folders : List String → LocalStore → LocalStore
unfolding drop_folder
drop_folders [] local = local
drop_folders (f ∷ fs) local = drop_folders fs (drop_folder f local)

unfoldable pub on_folder_list : Option (List FolderInfo) → Stores → Stores
unfolding drop_folders
on_folder_list none s = s
on_folder_list (some folders) s =
    let (store, removed) =
      prune_unknown_folders (map (λ f. f.id) folders) (set_folder_list folders s.store) in
    record { store = store; local = drop_folders removed s.local }

unfoldable pub refresh_folder_list : Backend → Stores → Stores
unfolding on_folder_list
refresh_folder_list backend s = on_folder_list backend.list_folders s

-- A later folder of the same entries list replaces an earlier one.
pub index_from : List FolderInfo → List (String × FolderInfo) → List (String × FolderInfo)
index_from [] m = m
index_from (f ∷ fs) m = index_from fs (insert f.entries_list_id f m)

unfoldable pub folder_by_entries : List FolderInfo → List (String × FolderInfo)
unfolding index_from
folder_by_entries folders = index_from folders []

or_unchanged : Stores → Option Stores → Stores
or_unchanged s none = s
or_unchanged s (some t) = t

sync_one : Backend → List (String × FolderInfo) → String → Stores → Stores
unfolding or_unchanged
sync_one backend folders list_id s = elim (lookup list_id folders) [
  | none ↦ s
  | some folder ↦ or_unchanged s (sync_folder backend folder s)
]

unfoldable pub sync_fallbacks : Backend → List (String × FolderInfo) → List String → Stores → Stores
unfolding sync_one
sync_fallbacks backend folders [] s = s
sync_fallbacks backend folders (l ∷ ls) s =
    sync_fallbacks backend folders ls (sync_one backend folders l s)

unfoldable pub apply_mail_events : Backend → List EntityUpdateEvent → Stores → Stores
apply_mail_events backend [] s = s
apply_mail_events backend (ev ∷ evs) s =
    apply_mail_events backend evs (apply_mail_event backend ev s)

pub record Bridge : Type 0 where
  pub stores : Stores
  pub last_batch_ids : List (String × String)

-- The kinds of message that the handler tells apart.
pub data Message : Type 0 where
  entity_update : EntityUpdateBatch → Message
  initial_sync_done other_message : Message

module _ (entry_mail : String → Option String) where
  unfoldable pub apply_creates :
      Backend → List (String × FolderInfo) → List EntityUpdateEvent → Work → Work
  apply_creates backend folders [] w = w
  apply_creates backend folders (ev ∷ evs) w =
      apply_creates backend folders evs
        (apply_mail_set_entry_create entry_mail backend folders ev w)

  unfoldable pub apply_deletes :
      List (String × FolderInfo) → List EntityUpdateEvent → Stores → Stores
  apply_deletes folders [] s = s
  apply_deletes folders (ev ∷ evs) s =
      apply_deletes folders evs (apply_mail_set_entry_delete entry_mail folders ev s)

  -- The folder list first, then the mails of the batch, then the entries created.
  unfoldable pub after_creates : Backend → EntityUpdateBatch → Stores → Work
  after_creates backend batch s =
      let b = bucket_updates batch.updates in
      let refreshed = if b.folder_list_dirty then refresh_folder_list backend s else s in
      apply_creates backend (folder_by_entries refreshed.store.folder_list) b.mail_set_entry_creates
        (record {
          stores = refreshed;
          fallback = [];
          pending = predecrypt_mail_creates backend b.mail_creates;
        })

  unfoldable pub apply_batch : Backend → EntityUpdateBatch → Stores → Stores
  apply_batch backend batch s =
      let b = bucket_updates batch.updates in
      let refreshed = if b.folder_list_dirty then refresh_folder_list backend s else s in
      let folders = folder_by_entries refreshed.store.folder_list in
      let w = after_creates backend batch s in
      sync_fallbacks backend folders w.fallback (
        apply_mail_events backend b.mail_events
          (apply_deletes folders b.mail_set_entry_deletes w.stores))

  unfoldable pub process : Backend → ℕ → Message → Bridge → Bridge
  process backend now_ms (entity_update batch) br =
      let s = apply_batch backend batch br.stores in
      record {
        stores = record s {
          local = set_event_bus_batch_id batch.group_id batch.batch_id now_ms s.local;
        };
        last_batch_ids = insert batch.group_id batch.batch_id br.last_batch_ids;
      }
  process backend now_ms initial_sync_done br = br
  process backend now_ms other_message br = br

  -- Each message with the time at which it is processed.
  unfoldable pub run : Backend → List (ℕ × Message) → Bridge → Bridge
  run backend [] br = br
  run backend ((now_ms, m) ∷ ms) br = run backend ms (process backend now_ms m br)
