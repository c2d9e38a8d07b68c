-- ===== src/Handler/Order.antt =====
-- `bucket_updates` (crates/bridge/src/event_handler.rs) against its description: each bucket is the
-- part of the batch that it names, in the order of the batch.
use tutabridge.Prelude.{
  ℕ, ◌≡◌, refl, sym, ◌∙◌, Bool, true, false, not, ◌&&◌, ◌||◌, List, [], ◌∷◌, ◌++◌, append-nil,
  append_assoc, arith, ◌==◌, ◌=s◌, keep, any,
}
use tutabridge.Handler.Events.{
  Operation, create, update, delete, other, EntityUpdateEvent, Bucketed, bucket, bucket_entry,
  bucket_mail, bucket_from, bucket_updates, tutanota_app, mail_type_id, mail_set_entry_type_id,
  mail_set_type_id,
}

is_create : Operation → Bool
is_create create = true
is_create _ = false

is_delete : Operation → Bool
is_delete delete = true
is_delete _ = false

-- An update of the mail application about entities of a type.
pub concerns : ℕ → EntityUpdateEvent → Bool
concerns type ev = ev.application =s tutanota_app && ev.type_id == type

pub is_entry_create : EntityUpdateEvent → Bool
unfolding concerns is_create
is_entry_create ev = concerns mail_set_entry_type_id ev && is_create ev.operation

pub is_entry_delete : EntityUpdateEvent → Bool
unfolding concerns is_delete
is_entry_delete ev = concerns mail_set_entry_type_id ev && is_delete ev.operation

pub is_mail_create : EntityUpdateEvent → Bool
unfolding concerns is_create
is_mail_create ev = concerns mail_type_id ev && is_create ev.operation

pub is_mail_change : EntityUpdateEvent → Bool
unfolding concerns is_create
is_mail_change ev = concerns mail_type_id ev && not (is_create ev.operation)

-- What a list of updates adds to buckets.
adds : List EntityUpdateEvent → Bucketed → Bucketed
adds evs out = record {
  mail_set_entry_creates = out.mail_set_entry_creates ++ keep is_entry_create evs;
  mail_set_entry_deletes = out.mail_set_entry_deletes ++ keep is_entry_delete evs;
  mail_creates = out.mail_creates ++ keep is_mail_create evs;
  mail_events = out.mail_events ++ keep is_mail_change evs;
  folder_list_dirty = out.folder_list_dirty || any (concerns mail_set_type_id) evs;
}

adds-nil : (out : Bucketed) → adds [] out ≡ out
unfolding adds
adds-nil out = ground (
  arith,
  append-nil out.mail_set_entry_creates,
  append-nil out.mail_set_entry_deletes,
  append-nil out.mail_creates,
  append-nil out.mail_events,
)

adds-cons_op :
    (op : Operation) (ev : EntityUpdateEvent) (evs : List EntityUpdateEvent) (out : Bucketed)
    → ev.operation ≡ op
    → adds evs (bucket ev out) ≡ adds (ev ∷ evs) out
unfolding adds bucket bucket_entry bucket_mail is_entry_create is_entry_delete is_mail_create
    is_mail_change is_create is_delete concerns
adds-cons_op create ev evs out e = rw e (
    ground (
      arith,
      append_assoc out.mail_set_entry_creates (ev ∷ []) (keep is_entry_create evs),
      append_assoc out.mail_set_entry_deletes (ev ∷ []) (keep is_entry_delete evs),
      append_assoc out.mail_creates (ev ∷ []) (keep is_mail_create evs),
      append_assoc out.mail_events (ev ∷ []) (keep is_mail_change evs),
    ))
adds-cons_op update ev evs out e = rw e (
    ground (
      arith,
      append_assoc out.mail_set_entry_creates (ev ∷ []) (keep is_entry_create evs),
      append_assoc out.mail_set_entry_deletes (ev ∷ []) (keep is_entry_delete evs),
      append_assoc out.mail_creates (ev ∷ []) (keep is_mail_create evs),
      append_assoc out.mail_events (ev ∷ []) (keep is_mail_change evs),
    ))
adds-cons_op delete ev evs out e = rw e (
    ground (
      arith,
      append_assoc out.mail_set_entry_creates (ev ∷ []) (keep is_entry_create evs),
      append_assoc out.mail_set_entry_deletes (ev ∷ []) (keep is_entry_delete evs),
      append_assoc out.mail_creates (ev ∷ []) (keep is_mail_create evs),
      append_assoc out.mail_events (ev ∷ []) (keep is_mail_change evs),
    ))
adds-cons_op (other c) ev evs out e = rw e (
    ground (
      arith,
      append_assoc out.mail_set_entry_creates (ev ∷ []) (keep is_entry_create evs),
      append_assoc out.mail_set_entry_deletes (ev ∷ []) (keep is_entry_delete evs),
      append_assoc out.mail_creates (ev ∷ []) (keep is_mail_create evs),
      append_assoc out.mail_events (ev ∷ []) (keep is_mail_change evs),
    ))

adds-cons :
    (ev : EntityUpdateEvent) (evs : List EntityUpdateEvent) (out : Bucketed)
    → adds evs (bucket ev out) ≡ adds (ev ∷ evs) out
adds-cons ev evs out = adds-cons_op ev.operation ev evs out refl

bucket_from-adds :
    (evs : List EntityUpdateEvent) (out : Bucketed) → bucket_from evs out ≡ adds evs out
unfolding bucket_from
bucket_from-adds [] out = sym (adds-nil out)
bucket_from-adds (ev ∷ evs) out = bucket_from-adds evs (bucket ev out) ∙ adds-cons ev evs out

-- Every bucket holds exactly the updates that it is for, in the order of the batch: the entries
-- created and deleted, the mails created, the other events of mails; and the folder list is to be
-- read again exactly if some update concerns a folder.
pub bucket_updates_lem :
    (evs : List EntityUpdateEvent)
    → let b = bucket_updates evs in
      (b.mail_set_entry_creates ≡ keep is_entry_create evs)
      × (b.mail_set_entry_deletes ≡ keep is_entry_delete evs)
      × (b.mail_creates ≡ keep is_mail_create evs)
      × (b.mail_events ≡ keep is_mail_change evs)
      × (b.folder_list_dirty ≡ any (concerns mail_set_type_id) evs)
unfolding bucket_updates adds
bucket_updates_lem evs = rw bucket_from-adds (refl, refl, refl, refl, refl)
