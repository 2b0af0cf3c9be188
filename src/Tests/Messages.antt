-- ===== src/Tests/Messages.antt =====
-- Messages at which the theorems on decoding and on exceptions are applied.
use macpony.Prelude.{ℕ, ◌≡◌, refl, ◌⊎◌, inr, String, true, false, some, List, [], ◌∷◌, arith}
use macpony.Prelude.Dict.{lookup}
use macpony.Prelude.Int.{pos}
use macpony.Errors.{
  Reason, returned, protocol, unknown_type, builtin, recursion_error, value_error, mac_api_error,
  rpc_error, rpc, class_of, rpc_exception,
}
use macpony.Errors.Rpc.{IsSubclass, rpc_exception-IsSubclass}
use macpony.Json.{finite, bool, int, float, str, arr, obj, nil, Fields, empty, field, get, is_text}
use macpony.Protocol.{RawEvent, event, Loads, loaded, too_deep, too_many_digits, decode_message}
use macpony.Protocol.Decode.{decode_message-event}
use macpony.Protocol.Refusals.{decode_message-raised}
use macpony.Events.{MacEvent, event_types, unknown_event, dump_event, parse_event}
use macpony.Events.Parse.{parse_event_total}
use macpony.Tests.Reference.{reference, reference-IsPydantic}

abbrev line : List ℕ
line = 123 ∷ 125 ∷ 10 ∷ []

-- `json.loads` makes this dict of every line.
abbrev loads_to : Fields → List ℕ → Loads
loads_to fs l = loaded (obj fs)

abbrev answer_fields : Fields
answer_fields = field "v" (int (pos 1)) (
    field "type" (str "response") (
      field "id" (str "req-00000001-0a1b2c3d")
        (field "ok" (bool true) (field "result" (arr nil) empty))))

abbrev error_fields : Fields
error_fields = field "code" (str "APP_NOT_FOUND") (field "message" (str "no such app") empty)

abbrev refusal_fields : Fields
refusal_fields = field "v" (int (pos 1)) (
    field "type" (str "response") (
      field "id" (str "req-00000001-0a1b2c3d")
        (field "ok" (bool false) (field "error" (obj error_fields) empty))))

abbrev event_fields : Fields
event_fields = field "v" (int (pos 1)) (
    field "type" (str "event") (
      field "seq" (int (pos 7)) (
        field "event" (str "system.didWake")
          (field "timestamp" (float (finite (pos 5) 1)) (field "data" (arr nil) empty)))))

abbrev woke : RawEvent
woke = record {
  seq = pos 7;
  event = "system.didWake";
  timestamp = finite (pos 5) 1;
  payload = empty;
}

decode_message-event_example :
    decode_message (loads_to event_fields) reference line ≡ returned (event woke)
unfolding get
decode_message-event_example =
    decode_message-event reference reference-IsPydantic (loads_to event_fields) line event_fields
      (omega arith) refl refl (pos 7) "system.didWake" (finite (pos 5) 1) (arr nil) empty refl refl
      refl refl refl (inr (refl, refl))

decode_message-raised_example :
    ((r : Reason) × (protocol unknown_type ≡ protocol r))
    ⊎ ((loads_to empty line ≡ too_deep) × (protocol unknown_type ≡ builtin recursion_error))
    ⊎ ((loads_to empty line ≡ too_many_digits) × (protocol unknown_type ≡ builtin value_error))
unfolding decode_message get is_text
decode_message-raised_example =
    decode_message-raised reference (loads_to empty) line (protocol unknown_type) refl

parse_event_total_example :
    (e : MacEvent) × (parse_event reference woke ≡ some e)
    × ((get "seq" e.fields ≡ some (int (pos 7)))
        × (get "event" e.fields ≡ some (str "system.didWake"))
        × (get "timestamp" e.fields ≡ some (float (finite (pos 5) 1))))
    × ((lookup "system.didWake" event_types ≡ some e.event_class)
        ⊎ ((e.event_class ≡ unknown_event) × (e.fields ≡ dump_event woke)))
parse_event_total_example = parse_event_total reference reference-IsPydantic woke

rpc_exception-IsSubclass_example :
    IsSubclass rpc_error (class_of (rpc_exception "APP_NOT_FOUND" "no such app"))
    × IsSubclass mac_api_error (class_of (rpc_exception "APP_NOT_FOUND" "no such app"))
    × (rpc_exception "APP_NOT_FOUND" "no such app"
        ≡ rpc
            (class_of (rpc_exception "APP_NOT_FOUND" "no such app"))
            "APP_NOT_FOUND"
            "no such app")
rpc_exception-IsSubclass_example = rpc_exception-IsSubclass "APP_NOT_FOUND" "no such app"

abbrev app_code : String
app_code = "APP_NOT_FOUND"
