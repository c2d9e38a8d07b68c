-- ===== src/Handler/Numbering.antt =====
-- The UIDs of every folder stay distinct while events are applied
-- (crates/bridge/src/event_handler.rs).
use tutabridge.Prelude.{
  ℕ, suc, ◌+◌, ◌≤◌, ◌<◌, ◌^◌, ◌≡◌, refl, subst, String, Option, none, some, List, [], ◌∷◌, arith,
  ◌=s◌, eq_iff, if◌then◌else◌, length, ◌⊎◌, Option-cases, Bool-cases, inl, inr,
}
use tutabridge.Prelude.Assoc.{lookup, remove}
use tutabridge.Model.{Mail, FolderInfo}
use tutabridge.Cache.{
  MailMetadata, LocalStore, next_uid, upsert_mail_metadata, delete_mail, write_eml,
  mark_has_details, refresh_mail_fields,
}
use tutabridge.Cache.Uids.{next_uid-allocate, lookup-allocate_one}
use tutabridge.MailStore.{
  StoredMail, MailStore, element_id, get_folder, find_mail_anywhere, upsert_mail_in_folder,
  upsert_mail, remove_mail_everywhere, refresh_mail_in_place,
}
use tutabridge.MailStore.Lookup.{
  get_folder-upsert, get_folder-remove, get_folder-remove_everywhere, get_folder-refresh,
}
use tutabridge.MailStore.Numbering.{
  IsNumbered, IsNumbered-mono, drop_mail-IsNumbered, upsert_mail-IsNumbered,
  update_first-IsNumbered,
}
use tutabridge.Backend.{Backend, Answer, found, absent, failed}
use tutabridge.Sync.{Stores}
use tutabridge.Handler.Events.{Operation, create, update, delete, other, EntityUpdateEvent}
use tutabridge.Handler.Batch.{apply_creates, apply_deletes, apply_mail_events}
use tutabridge.Handler.Create.{
  PendingMail, Work, fall_back, assign_uid_and_upsert, apply_pending, resolve_mail_set_entry,
  place_unknown, place_mail, apply_mail_set_entry_create, leave_folder, apply_mail_set_entry_delete,
  apply_mail_event, on_stores, mail_event, on_update, resolve_mail, miss, on_resolved, on_loaded,
  persist_inline, inline_body,
}

-- In every folder the UIDs in memory are distinct and below the folder's counter on disk.
abbrev pub HasUniqueUids : Stores → Type 0
HasUniqueUids s = (f : String) → IsNumbered (next_uid f s.local) (get_folder f s.store)

-- Every counter can hand out `k` more UIDs of 32 bits.
abbrev pub HasRoom : ℕ → Stores → Type 0
HasRoom k s = (f : String) → next_uid f s.local + k ≤ 2 ^ 32

next_uid-upsert :
    (f : String) (meta : MailMetadata) (local : LocalStore)
    → next_uid f (upsert_mail_metadata meta local) ≡ next_uid f local
unfolding next_uid upsert_mail_metadata
next_uid-upsert f meta local = refl

counter_after :
    (target : FolderInfo) (eid f : String) (stored : StoredMail) (s : Stores)
    → next_uid f (assign_uid_and_upsert target eid stored s).local
      ≡ (if target.id =s f then next_uid f s.local + 1 else next_uid f s.local)
unfolding assign_uid_and_upsert
counter_after target eid f stored s =
    rw next_uid-upsert
      (ground (arith, next_uid-allocate target.id (eid ∷ []) s.local f, eq_iff target.id f))

counter_grows :
    (target : FolderInfo) (eid f : String) (stored : StoredMail) (s : Stores)
    → (next_uid f s.local ≤ next_uid f (assign_uid_and_upsert target eid stored s).local)
      × (next_uid f (assign_uid_and_upsert target eid stored s).local ≤ next_uid f s.local + 1)
counter_grows target eid f stored s = ground (arith, counter_after target eid f stored s)

numbered :
    (target : FolderInfo) (eid : String) (stored : StoredMail) (s : Stores) (f : String)
    → next_uid target.id s.local < 2 ^ 32
    → HasUniqueUids s
    → IsNumbered
        (if target.id =s f then next_uid f s.local + 1 else next_uid f s.local)
        (get_folder f (assign_uid_and_upsert target eid stored s).store)
unfolding assign_uid_and_upsert upsert_mail_in_folder
numbered target eid stored s f room h = elim (Option-cases (element_id stored.mail)) [
  | inl e ↦
      rw (e, upsert_mail_in_folder)
        (IsNumbered-mono (next_uid f s.local) _ (get_folder f s.store) (ground arith) (h f))
  | inr (k, e) ↦
      rw
        (
          lookup-allocate_one target.id (eid ∷ []) s.local eid refl room,
          get_folder-upsert target.id f k (record stored { uid = next_uid target.id s.local })
              s.store e,
        )
        (elim (Bool-cases (target.id =s f)) [
          | inl same ↦ rw same (
              subst
                (λ g. IsNumbered (next_uid g s.local + 1) (
                  upsert_mail k (record stored { uid = next_uid target.id s.local })
                    (get_folder target.id s.store)))
                ((eq_iff target.id f).0 same)
                (upsert_mail-IsNumbered (next_uid target.id s.local) k _ _ refl (h target.id)))
          | inr apart ↦ rw apart (h f)
        ])
]

assign-HasUniqueUids :
    (target : FolderInfo) (eid : String) (stored : StoredMail) (s : Stores)
    → HasRoom 1 s
    → HasUniqueUids s
    → HasUniqueUids (assign_uid_and_upsert target eid stored s)
assign-HasUniqueUids target eid stored s room h f =
    rw (counter_after target eid f stored s)
      (numbered target eid stored s f (omega (arith, room target.id)) h)

next_uid-delete_mail :
    (f eid : String) (local : LocalStore) → next_uid f (delete_mail eid local) ≡ next_uid f local
unfolding next_uid delete_mail
next_uid-delete_mail f eid local = refl

next_uid-refresh :
    (f eid : String) (mail : Mail) (local : LocalStore)
    → next_uid f (refresh_mail_fields eid mail local) ≡ next_uid f local
unfolding next_uid refresh_mail_fields
next_uid-refresh f eid mail local = refl

next_uid-persist :
    (f eid eml : String) (local : LocalStore)
    → next_uid f (mark_has_details eid (write_eml eid eml local)) ≡ next_uid f local
unfolding next_uid mark_has_details write_eml
next_uid-persist f eid eml local = refl

leave_folder-HasUniqueUids :
    (source : FolderInfo) (eid : String) (s : Stores)
    → HasUniqueUids s
    → HasUniqueUids (leave_folder source eid s)
unfolding leave_folder
leave_folder-HasUniqueUids source eid s h f = ground (
  arith,
  next_uid-delete_mail f eid s.local,
  get_folder-remove source.id f eid s.store,
  drop_mail-IsNumbered (next_uid f s.local) eid (get_folder f s.store) (h f),
  h f,
)

forget-HasUniqueUids :
    (eid : String) (s : Stores)
    → HasUniqueUids s
    → HasUniqueUids
        (record { store = remove_mail_everywhere eid s.store; local = delete_mail eid s.local })
forget-HasUniqueUids eid s h f =
    rw (next_uid-delete_mail, get_folder-remove_everywhere)
      (drop_mail-IsNumbered (next_uid f s.local) eid (get_folder f s.store) (h f))

refreshed-IsNumbered :
    (n : ℕ) (f : String) (mail : Mail) (store : MailStore)
    → IsNumbered n (get_folder f store)
    → IsNumbered n (get_folder f (refresh_mail_in_place mail store))
unfolding refresh_mail_in_place
refreshed-IsNumbered n f mail store h = elim (Option-cases (element_id mail)) [
  | inl e ↦ rw (e, refresh_mail_in_place) h
  | inr (eid, e) ↦
      rw (get_folder-refresh f eid mail store e)
        (update_first-IsNumbered n _ _ (get_folder f store) (λ m. refl) h)
]

event-HasUniqueUids :
    (op : Operation) (backend : Backend) (ev : EntityUpdateEvent) (s : Stores)
    → HasUniqueUids s
    → HasUniqueUids (mail_event op backend ev s)
unfolding mail_event
event-HasUniqueUids delete backend ev s h = forget-HasUniqueUids ev.instance_id s h
event-HasUniqueUids update backend ev s h = elim (Option-cases (resolve_mail backend ev)) [
  | inl e ↦ rw (e, on_update) (forget-HasUniqueUids ev.instance_id s h)
  | inr (mail, e) ↦
      rw (e, on_update)
        λ f. rw next_uid-refresh (refreshed-IsNumbered (next_uid f s.local) f mail s.store (h f))
]
event-HasUniqueUids create backend ev s h = h
event-HasUniqueUids (other c) backend ev s h = h

-- A work item whose counters have room for one more UID, and then for `k`.
abbrev pub IsReady : ℕ → Work → Type 0
IsReady k w = HasUniqueUids w.stores × HasRoom k w.stores

assign-IsReady :
    (k : ℕ) (target : FolderInfo) (eid : String) (stored : StoredMail) (w v : Work)
    → v.stores ≡ w.stores
    → IsReady (suc k) w
    → IsReady k (on_stores (assign_uid_and_upsert target eid stored) v)
assign-IsReady k target eid stored w v e h = rw e (
  assign-HasUniqueUids target eid stored w.stores (λ f. omega (arith, h.1 f)) h.0,
  λ f. omega (arith, h.1 f, counter_grows target eid f stored w.stores),
)

idle-IsReady : (k : ℕ) (w : Work) → IsReady (suc k) w → IsReady k w
idle-IsReady k w h = (h.0, λ f. omega (arith, h.1 f))

persist-next_uid :
    (f eid : String) (eml : Option String) (local : LocalStore)
    → next_uid f (persist_inline eid eml local) ≡ next_uid f local
unfolding persist_inline
persist-next_uid f eid none local = refl
persist-next_uid f eid (some text) local = next_uid-persist f eid text local

persist-IsReady :
    (k : ℕ) (eid : String) (eml : Option String) (w : Work)
    → IsReady k w
    → IsReady k (on_stores (λ s. record s { local = persist_inline eid eml s.local }) w)
persist-IsReady k eid eml w h = (
  λ f. rw persist-next_uid (h.0 f),
  λ f. omega (arith, h.1 f, persist-next_uid f eid eml w.stores.local),
)

pending-IsReady :
    (k : ℕ) (backend : Backend) (target : FolderInfo) (eid : String) (p : PendingMail) (w v : Work)
    → v.stores ≡ w.stores
    → IsReady (suc k) w
    → IsReady k (on_stores (apply_pending backend target eid p) v)
unfolding apply_pending
pending-IsReady k backend target eid p w v e h =
    let eml = inline_body backend p.mail p.details in
    let w' = on_stores (λ s. record s { local = persist_inline eid eml s.local }) w in
    rw e (assign-IsReady k target eid _ w' w' refl (persist-IsReady (suc k) eid eml w h))

miss-IsReady :
    (k : ℕ) (backend : Backend) (target : FolderInfo) (ev : EntityUpdateEvent) (w : Work)
    → IsReady (suc k) w
    → IsReady k (miss backend target ev w)
unfolding miss fall_back
miss-IsReady k backend target ev w h = elim (Option-cases (resolve_mail_set_entry backend ev)) [
  | inl e ↦ rw (e, on_resolved) (idle-IsReady k w h)
  | inr (t, e) ↦
      rw (e, on_resolved) (loaded (backend.load_mail t.list_id t.element_id) t.element_id)
]
  where
    loaded : (a : Answer) (eid : String) → IsReady k (on_loaded target ev.instance_list_id eid a w)
    loaded (found mail) eid = assign-IsReady k target eid _ w w refl h
    loaded absent eid = idle-IsReady k w h
    loaded failed eid = idle-IsReady k w h

place-IsReady :
    (k : ℕ) (backend : Backend) (target : FolderInfo) (eid : String) (ev : EntityUpdateEvent)
    (w : Work)
    → IsReady (suc k) w
    → IsReady k (place_mail backend target eid ev w)
unfolding place_mail place_unknown
place-IsReady k backend target eid ev w h =
    elim (Option-cases (find_mail_anywhere eid w.stores.store)) [
      | inr ((source, stored), e) ↦
          rw (e, place_mail) (assign-IsReady k target eid stored w w refl h)
      | inl e ↦ elim (Option-cases (lookup eid w.pending)) [
        | inl e' ↦ rw (e, place_mail, e', place_unknown) (miss-IsReady k backend target ev w h)
        | inr (p, e') ↦
            rw (e, place_mail, e', place_unknown)
              (pending-IsReady k backend target eid p w
                (record w { pending = remove eid w.pending }) refl h)
      ]
    ]

module _ (entry_mail : String → Option String) where
  create-IsReady :
      (k : ℕ) (backend : Backend) (folders : List (String × FolderInfo)) (ev : EntityUpdateEvent)
      (w : Work)
      → IsReady (suc k) w
      → IsReady k (apply_mail_set_entry_create entry_mail backend folders ev w)
  unfolding apply_mail_set_entry_create
  create-IsReady k backend folders ev w h = elim (Option-cases (entry_mail ev.instance_id)) [
    | inl e ↦ rw (e, apply_mail_set_entry_create) (idle-IsReady k w h)
    | inr (eid, e) ↦ elim (Option-cases (lookup ev.instance_list_id folders)) [
      | inl e' ↦ rw (e, e', apply_mail_set_entry_create) (idle-IsReady k w h)
      | inr (target, e') ↦
          rw (e, e', apply_mail_set_entry_create) (place-IsReady k backend target eid ev w h)
    ]
  ]

  pub creates-HasUniqueUids :
      (backend : Backend) (folders : List (String × FolderInfo)) (evs : List EntityUpdateEvent)
      (w : Work)
      → IsReady (length evs) w
      → HasUniqueUids (apply_creates entry_mail backend folders evs w).stores
  unfolding apply_creates
  creates-HasUniqueUids backend folders [] w h = h.0
  creates-HasUniqueUids backend folders (ev ∷ evs) w h =
      creates-HasUniqueUids backend folders evs _
        (create-IsReady (length evs) backend folders ev w h)

  pub deletes-HasUniqueUids :
      (folders : List (String × FolderInfo)) (evs : List EntityUpdateEvent) (s : Stores)
      → HasUniqueUids s
      → HasUniqueUids (apply_deletes entry_mail folders evs s)
  unfolding apply_deletes apply_mail_set_entry_delete
  deletes-HasUniqueUids folders [] s h = h
  deletes-HasUniqueUids folders (ev ∷ evs) s h =
      deletes-HasUniqueUids folders evs _ (one (Option-cases (entry_mail ev.instance_id)))
    where
      one :
          (entry_mail ev.instance_id ≡ none)
            ⊎ ((eid : String) × (entry_mail ev.instance_id ≡ some eid))
          → HasUniqueUids (apply_mail_set_entry_delete entry_mail folders ev s)
      one (inl e) = rw (e, apply_mail_set_entry_delete) h
      one (inr (eid, e)) = elim (Option-cases (lookup ev.instance_list_id folders)) [
        | inl e' ↦ rw (e, e', apply_mail_set_entry_delete) h
        | inr (source, e') ↦
            rw (e, e', apply_mail_set_entry_delete) (leave_folder-HasUniqueUids source eid s h)
      ]

pub events-HasUniqueUids :
    (backend : Backend) (evs : List EntityUpdateEvent) (s : Stores)
    → HasUniqueUids s
    → HasUniqueUids (apply_mail_events backend evs s)
unfolding apply_mail_events apply_mail_event
events-HasUniqueUids backend [] s h = h
events-HasUniqueUids backend (ev ∷ evs) s h =
    events-HasUniqueUids backend evs _ (event-HasUniqueUids ev.operation backend ev s h)
