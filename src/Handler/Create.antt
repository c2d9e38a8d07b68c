-- ===== src/Handler/Create.antt =====
-- What a single event does (crates/bridge/src/event_handler.rs): `apply_mail_set_entry_create`,
-- `apply_mail_set_entry_delete`, `apply_mail_event` and what they call. Errors of the database,
-- which the code only logs, do not occur here; the cache of bodies is not part of the state.
use tutabridge.Prelude.{
  String, Bool, true, false, Option, none, some, List, [], ◌∷◌, ◌=s◌, if◌then◌else◌, any,
}
use tutabridge.Prelude.Assoc.{lookup, remove}
use tutabridge.Model.{IdTuple, Mail, MailDetails, FolderInfo}
use tutabridge.Cache.{
  LocalStore, allocate_folder_uids, upsert_mail_metadata, write_eml, mark_has_details, delete_mail,
  refresh_mail_fields,
}
use tutabridge.MailStore.{
  StoredMail, find_mail_anywhere, is_mail_anywhere, upsert_mail_in_folder, remove_mail_from_folder,
  remove_mail_everywhere, refresh_mail_in_place,
}
use tutabridge.Backend.{Backend, Answer, found, absent, failed}
use tutabridge.Sync.{Stores, mail_to_metadata, uid_or_zero, unseen}
use tutabridge.Handler.Events.{Operation, create, update, delete, other, EntityUpdateEvent}

pub record PendingMail : Type 0 where
  pub mail : Mail
  pub details : Option MailDetails

-- `fallback` is the set `fallback_folders`.
pub record Work : Type 0 where
  pub stores : Stores
  pub fallback : List String
  pub pending : List (String × PendingMail)

abbrev pub on_stores : (Stores → Stores) → Work → Work
on_stores f w = record w { stores = f w.stores }

unfoldable pub fall_back : String → Work → Work
fall_back list_id w = record w {
  fallback = if any (λ l. l =s list_id) w.fallback then w.fallback else list_id ∷ w.fallback;
}

-- A fresh UID in the target, on the mail and its row.
unfoldable pub assign_uid_and_upsert : FolderInfo → String → StoredMail → Stores → Stores
assign_uid_and_upsert target eid stored s =
    let (uids, local) = allocate_folder_uids target.id (eid ∷ []) s.local in
    let uid = uid_or_zero (lookup eid uids) in
    record {
      store = upsert_mail_in_folder target.id (record stored { uid = uid }) s.store;
      local = upsert_mail_metadata (mail_to_metadata stored.mail target.id uid) local;
    }

-- The inline body, rendered only for a mail with no attachments.
unfoldable pub inline_body : Backend → Mail → Option MailDetails → Option String
inline_body backend mail none = none
inline_body backend mail (some details) = elim mail.attachments [
  | [] ↦ some (backend.mail_to_rfc2822 mail details)
  | a ∷ rest ↦ none
]

unfoldable pub persist_inline : String → Option String → LocalStore → LocalStore
persist_inline eid none local = local
persist_inline eid (some eml) local = mark_has_details eid (write_eml eid eml local)

abbrev is_some : Option String → Bool
is_some none = false
is_some (some s) = true

-- HIT-FROM-BATCH.
unfoldable pub apply_pending : Backend → FolderInfo → String → PendingMail → Stores → Stores
unfolding inline_body persist_inline
apply_pending backend target eid p s =
    let rfc2822 = inline_body backend p.mail p.details in
    assign_uid_and_upsert target eid
      (record {
        mail = p.mail;
        body_loaded = is_some rfc2822;
        uid = 0;
        attachments_pending = false;
      })
      (record s { local = persist_inline eid rfc2822 s.local })

abbrev and_then : {A B : Type 0} → Option A → (A → Option B) → Option B
and_then none f = none
and_then (some a) f = f a

unfoldable pub resolve_mail_set_entry : Backend → EntityUpdateEvent → Option IdTuple
resolve_mail_set_entry backend ev = and_then ev.instance_json backend.decrypt_inline_mail_set_entry

-- The MISS path, behind the request for the one mail.
unfoldable pub on_loaded : FolderInfo → String → String → Answer → Work → Work
on_loaded target list_id eid (found mail) w =
    on_stores (assign_uid_and_upsert target eid (unseen mail 0)) w
on_loaded target list_id eid absent w = w
on_loaded target list_id eid failed w = fall_back list_id w

unfoldable pub on_resolved : Backend → FolderInfo → String → Option IdTuple → Work → Work
unfolding on_loaded
on_resolved backend target list_id none w = fall_back list_id w
on_resolved backend target list_id (some t) w =
    on_loaded target list_id t.element_id (backend.load_mail t.list_id t.element_id) w

unfoldable pub miss : Backend → FolderInfo → EntityUpdateEvent → Work → Work
unfolding on_resolved resolve_mail_set_entry
miss backend target ev w =
    on_resolved backend target ev.instance_list_id (resolve_mail_set_entry backend ev) w

unfoldable pub place_unknown : Backend → FolderInfo → String → EntityUpdateEvent → Work → Work
unfolding miss apply_pending
place_unknown backend target eid ev w = elim (lookup eid w.pending) [
  | none ↦ miss backend target ev w
  | some p ↦
      on_stores (apply_pending backend target eid p) (record w { pending = remove eid w.pending })
]

-- The three ways to the mail, once the entry names it and its folder is known.
unfoldable pub place_mail : Backend → FolderInfo → String → EntityUpdateEvent → Work → Work
unfolding place_unknown
place_mail backend target eid ev w = elim (find_mail_anywhere eid w.stores.store) [
  | some (source, stored) ↦ on_stores (assign_uid_and_upsert target eid stored) w
  | none ↦ place_unknown backend target eid ev w
]

-- The row and the message file go only if no folder holds the mail any more.
unfoldable pub leave_folder : FolderInfo → String → Stores → Stores
leave_folder source eid s =
    let store = (remove_mail_from_folder source.id eid s.store).0 in
    record {
      store = store;
      local = if is_mail_anywhere eid store then s.local else delete_mail eid s.local;
    }

-- `entry_mail` is the mail id that `mail_set_entry_id::deconstruct` finds in an entry id.
module _ (entry_mail : String → Option String) where
  unfoldable pub apply_mail_set_entry_create :
      Backend → List (String × FolderInfo) → EntityUpdateEvent → Work → Work
  unfolding place_mail fall_back
  apply_mail_set_entry_create backend folders ev w = elim (entry_mail ev.instance_id) [
    | none ↦ fall_back ev.instance_list_id w
    | some eid ↦ elim (lookup ev.instance_list_id folders) [
      | none ↦ fall_back ev.instance_list_id w
      | some target ↦ place_mail backend target eid ev w
    ]
  ]

  unfoldable pub apply_mail_set_entry_delete :
      List (String × FolderInfo) → EntityUpdateEvent → Stores → Stores
  unfolding leave_folder
  apply_mail_set_entry_delete folders ev s = elim (entry_mail ev.instance_id) [
    | none ↦ s
    | some eid ↦ elim (lookup ev.instance_list_id folders) [
      | none ↦ s
      | some source ↦ leave_folder source eid s
    ]
  ]

forget_mail : String → Stores → Stores
forget_mail eid s = record {
  store = remove_mail_everywhere eid s.store;
  local = delete_mail eid s.local;
}

mail_of : Answer → Option Mail
mail_of (found mail) = some mail
mail_of absent = none
mail_of failed = none

or_load : Backend → EntityUpdateEvent → Option Mail → Option Mail
unfolding mail_of
or_load backend ev (some mail) = some mail
or_load backend ev none = mail_of (backend.load_mail ev.instance_list_id ev.instance_id)

-- Inline first, then the server.
unfoldable pub resolve_mail : Backend → EntityUpdateEvent → Option Mail
unfolding or_load
resolve_mail backend ev = or_load backend ev (and_then ev.instance_json backend.decrypt_inline_mail)

unfoldable pub on_update : EntityUpdateEvent → Option Mail → Stores → Stores
unfolding forget_mail
on_update ev (some mail) s = record {
  store = refresh_mail_in_place mail s.store;
  local = refresh_mail_fields ev.instance_id mail s.local;
}
on_update ev none s = forget_mail ev.instance_id s

unfoldable pub mail_event : Operation → Backend → EntityUpdateEvent → Stores → Stores
unfolding on_update forget_mail resolve_mail
mail_event delete backend ev s = forget_mail ev.instance_id s
mail_event update backend ev s = on_update ev (resolve_mail backend ev) s
mail_event create backend ev s = s
mail_event (other c) backend ev s = s

unfoldable pub apply_mail_event : Backend → EntityUpdateEvent → Stores → Stores
unfolding mail_event
apply_mail_event backend ev s = mail_event ev.operation backend ev s
