-- ===== src/EventBus/Tests.antt =====
-- A connection that delivers two messages and whose session then expires.
use tutabridge.Prelude.{ℕ, Option, ◌==◌, ◌≡◌, refl, none, some, List, [], ◌∷◌}
use tutabridge.Prelude.Text.{Text, codes, parse_number, digits_value}
use tutabridge.Handler.{create, EntityUpdateEvent, from_code}
use tutabridge.Prelude.Json.{Value}
use tutabridge.EventBus.Messages.{ok, parse_message, entity_update}
use tutabridge.EventBus.Encoded.{Sent, as_number, as_text, batch_value, parse_message-batch}
use tutabridge.EventBus.Run.{
  Client, Input, start, run, reading, connected, text_frame, quiet_frame, close_frame, slept,
  dial_ok, dial_failed,
}
use tutabridge.EventBus.Trace.{IsConsistent, run-IsConsistent}

abbrev history : List (Input ℕ)
history =
    dial_failed ∷ slept ∷ dial_ok ∷ text_frame (some 7) ∷ close_frame 4440 ∷ slept ∷ dial_ok ∷ []

run-IsConsistent_example : IsConsistent (run (start {M = ℕ}) history)
unfolding start
run-IsConsistent_example = run-IsConsistent start history refl

abbrev online : Client ℕ
online = record { phase = reading; failed_attempts = 0; state = connected; delivered = 1 ∷ [] }

abbrev frames : List (Input ℕ)
frames = text_frame (some 7) ∷ quiet_frame ∷ text_frame none ∷ text_frame (some 8) ∷ []

abbrev new_mail : EntityUpdateEvent
new_mail = record {
  application = "tutanota";
  type_id = 97;
  instance_list_id = "l";
  instance_id = "m";
  operation = create;
  instance_json = none;
  blob_instance = some "{}";
}

abbrev sent_batch : List Sent
sent_batch =
    record { event = new_mail; type_spelling = as_text "97"; code = 0; code_spelling = as_number }
    ∷ []

abbrev reader : Text → Option Value
reader text = some (batch_value "b1" "g1" sent_batch)

parse_message-batch_example :
    parse_message reader (λ c. c == 32) (codes "entityUpdate;{}")
    ≡ ok (entity_update (record { batch_id = "b1"; group_id = "g1"; updates = new_mail ∷ [] }))
parse_message-batch_example =
    parse_message-batch reader (λ c. c == 32) (codes "{}") "b1" "g1" sent_batch refl
      ((unfold parse_number digits_value in refl, tt, unfold from_code in refl), tt)
