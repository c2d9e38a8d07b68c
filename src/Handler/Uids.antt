-- ===== src/Handler/Uids.antt =====
-- UIDs over a whole batch (crates/bridge/src/event_handler.rs).
use tutabridge.Prelude.{
  ℕ, ◌≡◌, refl, String, Bool, true, false, Option, none, some, List, [], ◌∷◌, arith, if◌then◌else◌,
  length, map,
}
use tutabridge.Model.{FolderInfo}
use tutabridge.Cache.{LocalStore, next_uid, delete_folder_mails, delete_eml}
use tutabridge.MailStore.{MailStore, get_folder, set_folder_list, prune_unknown_folders}
use tutabridge.MailStore.Lookup.{get_folder-prune}
use tutabridge.MailStore.Numbering.{IsNumbered}
use tutabridge.Backend.{Backend}
use tutabridge.Sync.{Stores}
use tutabridge.Handler.Events.{EntityUpdateBatch, bucket_updates}
use tutabridge.Handler.Batch.{
  refresh_folder_list, on_folder_list, drop_folders, drop_folder, delete_emls, after_creates,
  apply_batch, sync_fallbacks,
}
use tutabridge.Handler.Numbering.{
  HasUniqueUids, HasRoom, creates-HasUniqueUids, deletes-HasUniqueUids, events-HasUniqueUids,
}

next_uid-delete_emls :
    (f : String) (eids : List String) (local : LocalStore)
    → next_uid f (delete_emls eids local) ≡ next_uid f local
unfolding delete_emls next_uid delete_eml
next_uid-delete_emls f [] local = refl
next_uid-delete_emls f (eid ∷ eids) local = next_uid-delete_emls f eids (delete_eml eid local)

next_uid-drop_folder :
    (f g : String) (local : LocalStore) → next_uid f (drop_folder g local) ≡ next_uid f local
unfolding drop_folder delete_folder_mails
next_uid-drop_folder f g local = rw next_uid-delete_emls (unfold next_uid in refl)

next_uid-drop_folders :
    (f : String) (fs : List String) (local : LocalStore)
    → next_uid f (drop_folders fs local) ≡ next_uid f local
unfolding drop_folders
next_uid-drop_folders f [] local = refl
next_uid-drop_folders f (g ∷ gs) local =
    rw (next_uid-drop_folders f gs (drop_folder g local)) (next_uid-drop_folder f g local)

listed-next_uid :
    (o : Option (List FolderInfo)) (s : Stores) (f : String)
    → next_uid f (on_folder_list o s).local ≡ next_uid f s.local
unfolding on_folder_list
listed-next_uid none s f = refl
listed-next_uid (some folders) s f =
    next_uid-drop_folders f
      (prune_unknown_folders (map (λ g. g.id) folders) (set_folder_list folders s.store)).1 s.local

get_folder-set_folder_list :
    (f : String) (folders : List FolderInfo) (store : MailStore)
    → get_folder f (set_folder_list folders store) ≡ get_folder f store
unfolding get_folder set_folder_list
get_folder-set_folder_list f folders store = refl

listed-IsNumbered :
    (o : Option (List FolderInfo)) (s : Stores) (f : String) (n : ℕ)
    → IsNumbered n (get_folder f s.store)
    → IsNumbered n (get_folder f (on_folder_list o s).store)
unfolding on_folder_list
listed-IsNumbered none s f n h = h
listed-IsNumbered (some folders) s f n h =
    rw (get_folder-prune, get_folder-set_folder_list) (ground arith)

refreshed : Bool → Backend → Stores → Stores
refreshed dirty backend s = if dirty then refresh_folder_list backend s else s

refreshed-IsReady :
    (dirty : Bool) (backend : Backend) (k : ℕ) (s : Stores)
    → HasUniqueUids s
    → HasRoom k s
    → HasUniqueUids (refreshed dirty backend s) × HasRoom k (refreshed dirty backend s)
unfolding refreshed refresh_folder_list
refreshed-IsReady false backend k s h room = (h, room)
refreshed-IsReady true backend k s h room = (
  λ f. rw listed-next_uid (listed-IsNumbered backend.list_folders s f _ (h f)),
  λ f. rw listed-next_uid (room f),
)

module _ (entry_mail : String → Option String) (backend : Backend) where
  -- A batch after which no folder has to be listed again keeps the UIDs of every folder distinct
  -- and below the folder's counter, if each counter has room for the entries that it creates.
  pub apply_batch-HasUniqueUids :
      (batch : EntityUpdateBatch) (s : Stores)
      → HasUniqueUids s
      → HasRoom (length (bucket_updates batch.updates).mail_set_entry_creates) s
      → (after_creates entry_mail backend batch s).fallback ≡ []
      → HasUniqueUids (apply_batch entry_mail backend batch s)
  unfolding apply_batch after_creates sync_fallbacks refreshed
  apply_batch-HasUniqueUids batch s h room none_left =
      let b = bucket_updates batch.updates in
      rw none_left (
        events-HasUniqueUids backend b.mail_events _ (
          deletes-HasUniqueUids entry_mail _ b.mail_set_entry_deletes _ (
            creates-HasUniqueUids entry_mail backend _ b.mail_set_entry_creates _
              (refreshed-IsReady b.folder_list_dirty backend _ s h room))))
