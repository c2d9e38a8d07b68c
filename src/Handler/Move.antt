-- ===== src/Handler/Move.antt =====
-- A mail that moves between two folders that are known (crates/bridge/src/event_handler.rs).
use tutabridge.Prelude.{
  ◌<◌, ◌^◌, ◌≡◌, refl, String, true, false, Option, none, some, List, [], ◌∷◌, arith, ◌=s◌, eq_iff,
  if◌then◌else◌, any, first,
}
use tutabridge.Prelude.Assoc.{lookup}
use tutabridge.Model.{FolderInfo}
use tutabridge.Cache.{next_uid, upsert_mail_metadata, allocate_folder_uids}
use tutabridge.Cache.Uids.{lookup-allocate_one}
use tutabridge.MailStore.{
  StoredMail, element_id, holds_id, is_mail, get_folder, mail_in_folder, find_mail_anywhere,
  upsert_mail, drop_mail, upsert_mail_in_folder, remove_mail_from_folder,
}
use tutabridge.MailStore.Lookup.{get_folder-upsert, get_folder-remove, anywhere_of_folder}
use tutabridge.Backend.{Backend}
use tutabridge.Sync.{Stores}
use tutabridge.Handler.Events.{EntityUpdateEvent}
use tutabridge.Handler.Create.{
  Work, apply_mail_set_entry_create, apply_mail_set_entry_delete, assign_uid_and_upsert,
  leave_folder, place_mail,
}

first-upsert :
    (eid : String) (x : StoredMail) (ms : List StoredMail)
    → holds_id eid x ≡ true
    → first (holds_id eid) (upsert_mail eid x ms) ≡ some x
unfolding upsert_mail
first-upsert eid x [] h = ground arith
first-upsert eid x (m ∷ ms) h = ground (arith, first-upsert eid x ms h)

first-drop : (eid : String) (ms : List StoredMail) → first (holds_id eid) (drop_mail eid ms) ≡ none
unfolding drop_mail
first-drop eid [] = refl
first-drop eid (m ∷ ms) = ground (arith, first-drop eid ms)

holds_of_id : (eid : String) (m : StoredMail) → element_id m.mail ≡ some eid → holds_id eid m ≡ true
unfolding is_mail
holds_of_id eid m e = ground (arith, eq_iff eid eid)

any_of_first :
    (eid : String) (x : StoredMail) (ms : List StoredMail)
    → first (holds_id eid) ms ≡ some x
    → any (holds_id eid) ms ≡ true
any_of_first eid x [] h = ground arith
any_of_first eid x (m ∷ ms) h = ground (arith, any_of_first eid x ms)

-- The entry of a mail that some folder holds: the mail goes to the target under the next UID.
placed :
    (backend : Backend) (target : FolderInfo) (eid at : String) (stored : StoredMail)
    (ev : EntityUpdateEvent) (w : Work)
    → find_mail_anywhere eid w.stores.store ≡ some (at, stored)
    → (place_mail backend target eid ev w).stores ≡ assign_uid_and_upsert target eid stored w.stores
unfolding place_mail
placed backend target eid at stored ev w e = rw (e, place_mail) refl

assigned_store :
    (target : FolderInfo) (eid : String) (stored : StoredMail) (s : Stores)
    → next_uid target.id s.local < 2 ^ 32
    → (assign_uid_and_upsert target eid stored s).store
      ≡ upsert_mail_in_folder target.id (record stored { uid = next_uid target.id s.local }) s.store
unfolding assign_uid_and_upsert
assigned_store target eid stored s h =
    rw (lookup-allocate_one target.id (eid ∷ []) s.local eid refl h) refl

pub assigned_emls :
    (target : FolderInfo) (eid : String) (stored : StoredMail) (s : Stores)
    → ((assign_uid_and_upsert target eid stored s).local.emls ≡ s.local.emls)
      × ((assign_uid_and_upsert target eid stored s).local.fts ≡ s.local.fts)
unfolding assign_uid_and_upsert upsert_mail_metadata allocate_folder_uids
assigned_emls target eid stored s = (refl, refl)

assigned_folder :
    (target : FolderInfo) (eid f : String) (stored : StoredMail) (s : Stores)
    → next_uid target.id s.local < 2 ^ 32
    → element_id stored.mail ≡ some eid
    → get_folder f (assign_uid_and_upsert target eid stored s).store ≡ (
        if target.id =s f
        then upsert_mail eid
            (record stored { uid = next_uid target.id s.local })
            (get_folder target.id s.store)
        else get_folder f s.store)
assigned_folder target eid f stored s h e = rw (assigned_store target eid stored s h) (
    get_folder-upsert target.id f eid (record stored { uid = next_uid target.id s.local }) s.store
      e)

left_local :
    (source : FolderInfo) (eid f : String) (s : Stores)
    → (source.id =s f) ≡ false
    → any (holds_id eid) (get_folder f s.store) ≡ true
    → (leave_folder source eid s).local ≡ s.local
unfolding leave_folder
left_local source eid f s ne h =
    rw
      (anywhere_of_folder f eid (remove_mail_from_folder source.id eid s.store).0
        (rw (get_folder-remove source.id f eid s.store, ne) h))
      refl

module _ (target : FolderInfo) (eid : String) (stored : StoredMail) (s : Stores)
    (room : next_uid target.id s.local < 2 ^ 32) (named : element_id stored.mail ≡ some eid) where
  pub arrives :
      mail_in_folder target.id eid (assign_uid_and_upsert target eid stored s).store
      ≡ some (record stored { uid = next_uid target.id s.local })
  unfolding mail_in_folder
  arrives = rw (assigned_folder target eid target.id stored s room named) (
      ground (
        arith,
        eq_iff target.id target.id,
        first-upsert eid (record stored { uid = next_uid target.id s.local })
            (get_folder target.id s.store) (holds_of_id eid stored named),
      ))

  present :
      any (holds_id eid) (get_folder target.id (assign_uid_and_upsert target eid stored s).store)
      ≡ true
  unfolding mail_in_folder
  present = any_of_first eid (record stored { uid = next_uid target.id s.local }) _ arrives

module _ (target source : FolderInfo) (eid : String) (stored : StoredMail) (s : Stores)
    (room : next_uid target.id s.local < 2 ^ 32) (named : element_id stored.mail ≡ some eid)
    (apart : (source.id =s target.id) ≡ false) where
  moved_lem :
      let after = leave_folder source eid (assign_uid_and_upsert target eid stored s) in
      (mail_in_folder target.id eid after.store
        ≡ some (record stored { uid = next_uid target.id s.local }))
      × (mail_in_folder source.id eid after.store ≡ none)
      × (after.local.emls ≡ s.local.emls)
      × (after.local.fts ≡ s.local.fts)
      × ((f : String)
          → (source.id =s f) ≡ false
          → (target.id =s f) ≡ false
          → get_folder f after.store ≡ get_folder f s.store)
  unfolding leave_folder mail_in_folder
  moved_lem = (
    rw (get_folder-remove source.id target.id eid, apart) (arrives target eid stored s room named),
    rw (get_folder-remove source.id source.id eid) (
        ground (
          arith,
          eq_iff source.id source.id,
          first-drop eid (get_folder source.id (assign_uid_and_upsert target eid stored s).store),
        )),
    rw
        (left_local source eid target.id (assign_uid_and_upsert target eid stored s) apart
          (present target eid stored s room named))
        (assigned_emls target eid stored s).0,
    rw
        (left_local source eid target.id (assign_uid_and_upsert target eid stored s) apart
          (present target eid stored s room named))
        (assigned_emls target eid stored s).1,
    λ f p q.
        rw
          (
            get_folder-remove source.id f eid,
            p,
            assigned_folder target eid f stored s room named,
            q,
          )
          refl,
  )

module _ (entry_mail : String → Option String) (backend : Backend) where
  created_lem :
      (folders : List (String × FolderInfo)) (ev : EntityUpdateEvent) (w : Work)
      (target : FolderInfo) (eid : String)
      → entry_mail ev.instance_id ≡ some eid
      → lookup ev.instance_list_id folders ≡ some target
      → apply_mail_set_entry_create entry_mail backend folders ev w
        ≡ place_mail backend target eid ev w
  unfolding apply_mail_set_entry_create
  created_lem folders ev w target eid c t = ground arith

  deleted_lem :
      (folders : List (String × FolderInfo)) (ev : EntityUpdateEvent) (s : Stores)
      (source : FolderInfo) (eid : String)
      → entry_mail ev.instance_id ≡ some eid
      → lookup ev.instance_list_id folders ≡ some source
      → apply_mail_set_entry_delete entry_mail folders ev s ≡ leave_folder source eid s
  unfolding apply_mail_set_entry_delete
  deleted_lem folders ev s source eid c t = ground arith

  -- A mail moves between two known and different folders, by an entry created in the target and one
  -- deleted in the source; some folder holds it before, under its id, and the target's counter fits
  -- 32 bits. Afterwards the target holds it, unchanged but for the target's next UID; the source does
  -- not; its message file and its index entry are those of before; and every other folder lists what
  -- it listed.
  pub move_lem :
      (folders : List (String × FolderInfo)) (created deleted : EntityUpdateEvent) (w : Work)
      (target source : FolderInfo) (eid at : String) (stored : StoredMail)
      → entry_mail created.instance_id ≡ some eid
      → entry_mail deleted.instance_id ≡ some eid
      → lookup created.instance_list_id folders ≡ some target
      → lookup deleted.instance_list_id folders ≡ some source
      → (source.id =s target.id) ≡ false
      → find_mail_anywhere eid w.stores.store ≡ some (at, stored)
      → element_id stored.mail ≡ some eid
      → next_uid target.id w.stores.local < 2 ^ 32
      → let before = w.stores in
        let after =
          apply_mail_set_entry_delete entry_mail folders deleted
            (apply_mail_set_entry_create entry_mail backend folders created w).stores in
        (mail_in_folder target.id eid after.store
          ≡ some (record stored { uid = next_uid target.id before.local }))
        × (mail_in_folder source.id eid after.store ≡ none)
        × (after.local.emls ≡ before.local.emls)
        × (after.local.fts ≡ before.local.fts)
        × ((f : String)
            → (source.id =s f) ≡ false
            → (target.id =s f) ≡ false
            → get_folder f after.store ≡ get_folder f before.store)
  move_lem folders created deleted w target source eid at stored c d t u apart f named room =
      rw
        (
          created_lem folders created w target eid c t,
          deleted_lem folders deleted _ source eid d u,
          placed backend target eid at stored created w f,
        )
        (moved_lem target source eid stored w.stores room named apart)
