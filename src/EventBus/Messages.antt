-- ===== src/EventBus/Messages.antt =====
-- `parse_message` and the functions under it (crates/tuta/src/event_bus.rs). serde_json reads the text
-- into a `Value`. An error carries what is named in its message.
use tutabridge.Prelude.{
  ℕ, ◌-◌, ◌%◌, ◌^◌, String, Bool, Option, none, some, List, [], ◌∷◌, ◌==◌, leb, if◌then◌else◌,
}
use tutabridge.Prelude.Text.{
  Text, codes, same_text, split_once, trim, is_empty, digits_value, parse_number,
}
use tutabridge.Prelude.Json.{Value, number, string, array, Values, no_values, value, get, as_str}
use tutabridge.Handler.{from_code, EntityUpdateEvent, EntityUpdateBatch}

pub data Result (A : Type 0) : Type 0 where
  ok : A → Result A
  invalid_message : Text → Result A

abbrev or_empty : Option String → String
or_empty none = ""
or_empty (some s) = s

abbrev or_invalid : String → Option String → Result String
or_invalid key none = invalid_message (codes key)
or_invalid key (some s) = ok s

unfoldable pub take_string : Value → String → Result String
unfolding get
take_string v key = or_invalid key (as_str (get key v))

abbrev negated : Option ℕ → Option ℕ
negated none = none
negated (some n) = if leb n (2 ^ 63) then some ((2 ^ 64 - n) % 2 ^ 64) else none

-- `str::parse::<i64>`
abbrev pub parse_i64 : Text → Option ℕ
parse_i64 [] = none
parse_i64 (c ∷ s) =
    if c == b'-'
    then if is_empty s then none else negated (digits_value 0 s)
    else parse_number (2 ^ 63) (c ∷ s)

abbrev number_or_invalid : String → Option ℕ → Result ℕ
number_or_invalid key none = invalid_message (codes key)
number_or_invalid key (some n) = ok n

abbrev pub integer_of : String → Option Value → Result ℕ
integer_of key (some (string s)) = number_or_invalid key (parse_i64 (codes s))
integer_of key (some (number n)) = number_or_invalid key n
integer_of key _ = invalid_message (codes key)

unfoldable pub take_string_or_int : Value → String → Result ℕ
unfolding get
take_string_or_int v key = integer_of key (get key v)

-- `?`
abbrev pub and_then : {A B : Type 0} → Result A → (A → Result B) → Result B
and_then (ok a) f = f a
and_then (invalid_message m) f = invalid_message m

unfoldable pub parse_entity_update_event : Value → Result EntityUpdateEvent
parse_entity_update_event v = and_then (take_string v "464") (λ application.
    and_then (take_string_or_int v "2556") (λ type_id.
      and_then (take_string v "467") (λ instance_id.
        and_then (take_string_or_int v "624") (λ operation. ok (record {
          application = application;
          type_id = type_id;
          instance_list_id = or_empty (as_str (get "466" v));
          instance_id = instance_id;
          operation = from_code operation;
          instance_json = as_str (get "2617" v);
          blob_instance = as_str (get "2701" v);
        })))))

-- `collect` on results: the first error ends it.
unfoldable pub parse_updates : Values → Result (List EntityUpdateEvent)
parse_updates no_values = ok []
parse_updates (value v vs) =
    and_then (parse_entity_update_event v)
      (λ ev. and_then (parse_updates vs) (λ evs. ok (ev ∷ evs)))

abbrev updates_of : Option Value → Result (List EntityUpdateEvent)
updates_of (some (array vs)) = parse_updates vs
updates_of _ = invalid_message (codes "entityUpdates")

unfoldable pub batch_of : Value → Result EntityUpdateBatch
batch_of v = and_then (take_string v "1485") (λ batch_id.
    and_then (take_string v "1486") (λ group_id.
      and_then (updates_of (get "1487" v))
        (λ updates. ok (record { batch_id = batch_id; group_id = group_id; updates = updates }))))

pub data EventBusMessage : Type 0 where
  entity_update : EntityUpdateBatch → EventBusMessage
  counter_update leader_status operation_status_update phishing_markers : Value → EventBusMessage
  initial_sync_done : EventBusMessage
  initial_sync_work_estimate : ℕ → EventBusMessage
  unknown : Text → Text → EventBusMessage

abbrev or_zero : Option ℕ → ℕ
or_zero none = 0
or_zero (some n) = n

abbrev kind_and_value : Text → Option (Text × Text) → Text × Text
kind_and_value text none = (text, [])
kind_and_value text (some parts) = parts

module _ (from_str : Text → Option Value) (white : ℕ → Bool) where
  abbrev json_or_invalid : Text → Option Value → Result Value
  json_or_invalid kind none = invalid_message kind
  json_or_invalid kind (some v) = ok v

  unfoldable parse_json : Text → Text → Result Value
  parse_json text kind = json_or_invalid kind (from_str text)

  unfoldable pub parse_entity_update_batch : Text → Result EntityUpdateBatch
  unfolding parse_json batch_of
  parse_entity_update_batch text = and_then (parse_json text (codes "entityUpdate")) batch_of

  unfoldable parse_parts : Text → Text → Result EventBusMessage
  unfolding parse_json parse_entity_update_batch
  parse_parts kind text =
      let json = parse_json text kind in
      if same_text kind (codes "entityUpdate")
      then and_then (parse_entity_update_batch text) (λ b. ok (entity_update b))
      else if same_text kind (codes "unreadCounterUpdate")
      then and_then json (λ v. ok (counter_update v))
      else if same_text kind (codes "leaderStatus")
      then and_then json (λ v. ok (leader_status v))
      else if same_text kind (codes "operationStatusUpdate")
      then and_then json (λ v. ok (operation_status_update v))
      else if same_text kind (codes "initialSyncDone")
      then ok initial_sync_done
      else if same_text kind (codes "initialSyncWorkEstimate")
      then ok (initial_sync_work_estimate (or_zero (parse_number (2 ^ 64) (trim white text))))
      else if same_text kind (codes "phishingMarkers")
      then and_then json (λ v. ok (phishing_markers v))
      else ok (unknown kind text)

  unfoldable pub parse_message : Text → Result EventBusMessage
  unfolding parse_parts
  parse_message text =
      let parts = kind_and_value text (split_once b';' text) in parse_parts parts.0 parts.1
