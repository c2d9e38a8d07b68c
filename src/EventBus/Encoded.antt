-- ===== src/EventBus/Encoded.antt =====
-- Batches as the server writes them, against the parser of crates/tuta/src/event_bus.rs.
use tutabridge.Prelude.{
  ℕ, String, Bool, ◌++◌, Option, none, some, List, [], ◌∷◌, map, All, ◌≡◌, refl,
}
use tutabridge.Prelude.Text.{Text, codes, split_once, same_text}
use tutabridge.Handler.{from_code, EntityUpdateEvent}
use tutabridge.Prelude.Json.{
  Value, null, number, string, array, object, Values, no_values, value, no_fields, field, get,
  as_str,
}
use tutabridge.EventBus.Messages.{
  ok, parse_i64, take_string, take_string_or_int, parse_entity_update_event, parse_updates,
  batch_of, integer_of, parse_entity_update_batch, parse_message, entity_update,
}

-- A number is sent as such, or as a text.
pub data Spelling : Type 0 where
  as_number : Spelling
  as_text : String → Spelling

abbrev spelled : Spelling → ℕ → Value
spelled as_number n = number (some n)
spelled (as_text s) n = string s

abbrev IsSpelled : Spelling → ℕ → Type 0
IsSpelled as_number n = Unit
IsSpelled (as_text s) n = parse_i64 (codes s) ≡ some n

pub record Sent : Type 0 where
  pub event : EntityUpdateEvent
  pub type_spelling : Spelling
  pub code : ℕ
  pub code_spelling : Spelling

abbrev IsSent : Sent → Type 0
IsSent s =
    IsSpelled s.type_spelling s.event.type_id
    × IsSpelled s.code_spelling s.code
    × (from_code s.code ≡ s.event.operation)

abbrev or_null : Option String → Value
or_null none = null
or_null (some s) = string s

abbrev event_value : Sent → Value
event_value s = object (
    field "464" (string s.event.application) (
      field "466" (string s.event.instance_list_id) (
        field "467" (string s.event.instance_id) (
          field "624" (spelled s.code_spelling s.code) (
            field "2556" (spelled s.type_spelling s.event.type_id) (
              field "2617" (or_null s.event.instance_json)
                (field "2701" (or_null s.event.blob_instance) no_fields)))))))

abbrev values_of : List Sent → Values
values_of [] = no_values
values_of (s ∷ ss) = value (event_value s) (values_of ss)

abbrev pub batch_value : String → String → List Sent → Value
batch_value batch_id group_id sent = object (
    field "1485" (string batch_id)
      (field "1486" (string group_id) (field "1487" (array (values_of sent)) no_fields)))

integer_of-spelled :
    (key : String) (spelling : Spelling) (n : ℕ)
    → IsSpelled spelling n
    → integer_of key (some (spelled spelling n)) ≡ ok n
integer_of-spelled key as_number n h = refl
integer_of-spelled key (as_text s) n h = rw h refl

as_str-or_null : (o : Option String) → as_str (some (or_null o)) ≡ o
as_str-or_null none = refl
as_str-or_null (some s) = refl

type_read :
    (s : Sent)
    → IsSpelled s.type_spelling s.event.type_id
    → take_string_or_int (event_value s) "2556" ≡ ok s.event.type_id
unfolding take_string_or_int get
type_read s h = integer_of-spelled "2556" s.type_spelling s.event.type_id h

code_read :
    (s : Sent)
    → IsSpelled s.code_spelling s.code
    → take_string_or_int (event_value s) "624" ≡ ok s.code
unfolding take_string_or_int get
code_read s h = integer_of-spelled "624" s.code_spelling s.code h

event_read : (s : Sent) → IsSent s → parse_entity_update_event (event_value s) ≡ ok s.event
unfolding parse_entity_update_event take_string get
event_read s (h, k, c) = rw (type_read s h) (
    rw (code_read s k)
      (rw (c, as_str-or_null s.event.instance_json, as_str-or_null s.event.blob_instance) refl))

updates_read :
    (sent : List Sent)
    → All IsSent sent
    → parse_updates (values_of sent) ≡ ok (map (λ s. s.event) sent)
unfolding parse_updates
updates_read [] h = refl
updates_read (s ∷ sent) (h, hs) = rw (event_read s h) (rw (updates_read sent hs) refl)

batch_read :
    (batch_id group_id : String) (sent : List Sent)
    → All IsSent sent
    → batch_of (batch_value batch_id group_id sent)
      ≡ ok (record { batch_id = batch_id; group_id = group_id; updates = map (λ s. s.event) sent })
unfolding batch_of take_string get
batch_read batch_id group_id sent h = rw (updates_read sent h) refl

-- A message with a batch that the server has written, each number as such or as a text that it can
-- be parsed from, is read as that batch: its ids and its updates in their order.
pub parse_message-batch :
    (from_str : Text → Option Value) (white : ℕ → Bool) (json : Text) (batch_id group_id : String)
    (sent : List Sent) (written : from_str json ≡ some (batch_value batch_id group_id sent))
    (well_sent : All IsSent sent)
    → parse_message from_str white (codes "entityUpdate;" ++ json)
      ≡ ok (
          entity_update (record {
            batch_id = batch_id;
            group_id = group_id;
            updates = map (λ s. s.event) sent;
          }))
unfolding parse_message parse_entity_update_batch split_once same_text
parse_message-batch from_str white json batch_id group_id sent written well =
    rw written (rw (batch_read batch_id group_id sent well) refl)
