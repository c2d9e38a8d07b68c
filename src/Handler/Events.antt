-- ===== src/Handler/Events.antt =====
-- The updates of a batch and `bucket_updates` (crates/bridge/src/event_handler.rs; the types are
-- those of crates/tuta/src/event_bus.rs).
use tutabridge.Prelude.{
  ℕ, String, Bool, true, false, not, Option, List, [], ◌∷◌, ◌++◌, ◌==◌, ◌=s◌, if◌then◌else◌,
}

pub data Operation : Type 0 where
  create update delete : Operation
  other : ℕ → Operation

unfoldable pub from_code : ℕ → Operation
from_code c =
    if c == 0 then create else if c == 1 then update else if c == 2 then delete else other c

pub record EntityUpdateEvent : Type 0 where
  pub application : String
  pub type_id : ℕ
  pub instance_list_id : String
  pub instance_id : String
  pub operation : Operation
  pub instance_json : Option String
  pub blob_instance : Option String

pub record EntityUpdateBatch : Type 0 where
  pub batch_id : String
  pub group_id : String
  pub updates : List EntityUpdateEvent

abbrev pub tutanota_app : String
tutanota_app = "tutanota"

abbrev pub mail_type_id : ℕ
mail_type_id = 97

abbrev pub mail_set_entry_type_id : ℕ
mail_set_entry_type_id = 1450

abbrev pub mail_set_type_id : ℕ
mail_set_type_id = 429

pub record Bucketed : Type 0 where
  pub mail_set_entry_creates : List EntityUpdateEvent
  pub mail_set_entry_deletes : List EntityUpdateEvent
  pub mail_creates : List EntityUpdateEvent
  pub mail_events : List EntityUpdateEvent
  pub folder_list_dirty : Bool

abbrev pub no_updates : Bucketed
no_updates = record {
  mail_set_entry_creates = [];
  mail_set_entry_deletes = [];
  mail_creates = [];
  mail_events = [];
  folder_list_dirty = false;
}

unfoldable pub bucket_entry : Operation → EntityUpdateEvent → Bucketed → Bucketed
bucket_entry create ev out = record out {
  mail_set_entry_creates = out.mail_set_entry_creates ++ ev ∷ [];
}
bucket_entry delete ev out = record out {
  mail_set_entry_deletes = out.mail_set_entry_deletes ++ ev ∷ [];
}
bucket_entry _ ev out = out

unfoldable pub bucket_mail : Operation → EntityUpdateEvent → Bucketed → Bucketed
bucket_mail create ev out = record out { mail_creates = out.mail_creates ++ ev ∷ [] }
bucket_mail _ ev out = record out { mail_events = out.mail_events ++ ev ∷ [] }

-- One round of the loop.
unfoldable pub bucket : EntityUpdateEvent → Bucketed → Bucketed
unfolding bucket_entry bucket_mail
bucket ev out =
    if not (ev.application =s tutanota_app)
    then out
    else if ev.type_id == mail_set_entry_type_id
    then bucket_entry ev.operation ev out
    else if ev.type_id == mail_type_id
    then bucket_mail ev.operation ev out
    else if ev.type_id == mail_set_type_id
    then record out { folder_list_dirty = true }
    else out

unfoldable pub bucket_from : List EntityUpdateEvent → Bucketed → Bucketed
bucket_from [] out = out
bucket_from (ev ∷ evs) out = bucket_from evs (bucket ev out)

unfoldable pub bucket_updates : List EntityUpdateEvent → Bucketed
unfolding bucket_from
bucket_updates updates = bucket_from updates no_updates
