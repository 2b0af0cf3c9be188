-- ===== src/Protocol.antt =====
-- The wire envelopes, their encoding and their validation: protocol.py of
-- python-client/src/hammerspoon_macapi. The `json` module is given by what it makes of a line and
-- of a value, and pydantic by its validator.
mod Envelopes
pub mod Framing
pub mod Decode
pub mod Refusals
unfoldable pub use Envelopes.*
use macpony.Prelude.{
  ℕ, ◌*◌, String, Bool, true, false, Option, none, some, List, [], ◌∷◌, ◌++◌, length, ltb,
  if◌then◌else◌,
}
use macpony.Prelude.Int.{ℤ, pos}
use macpony.Errors.{
  Outcome, returned, raised, protocol, builtin, recursion_error, value_error, oversized_line,
  invalid_json, not_an_object, unknown_type, invalid_result, invalid_message,
}
use macpony.Json.{
  Float, Json, null, bool, int, float, str, arr, obj, Fields, empty, field, get, put, is_text,
  is_empty_list,
}
use macpony.Pydantic.{
  Annotation, any_value, none_type, str_type, int_type, float_type, bool_type, literal_str,
  literal_int, optional, dict_of, model, Decls, done, required, default, Validator, ◌>>=◌,
}
use macpony.Constants.{max_line_bytes, newline_byte}

-- Attribute reads of a validated instance.
abbrev pub as_text : Json → Option String
as_text (str s) = some s
as_text _ = none

abbrev pub as_bool : Json → Option Bool
as_bool (bool b) = some b
as_bool _ = none

abbrev pub as_int : Json → Option ℤ
as_int (int i) = some i
as_int _ = none

abbrev pub as_float : Json → Option Float
as_float (float x) = some x
as_float _ = none

abbrev pub as_fields : Json → Option Fields
as_fields (obj fs) = some fs
as_fields _ = none

abbrev pub as_optional_text : Json → Option (Option String)
as_optional_text null = some none
as_optional_text (str s) = some (some s)
as_optional_text _ = none

as_error : Json → Option (Option ErrorInfo)
as_error null = some none
as_error (obj fs) = do
  code ← get "code" fs >>= as_text
  message ← get "message" fs >>= as_text
  some (some (record { code = code; message = message }))
as_error _ = none

read_response : Fields → Option WireMessage
unfolding as_error
read_response fs = do
  id ← get "id" fs >>= as_text
  ok ← get "ok" fs >>= as_bool
  result ← get "result" fs
  error ← get "error" fs >>= as_error
  some (response (record { id = id; ok = ok; result = result; error = error }))

read_event : Fields → Option WireMessage
read_event fs = do
  seq ← get "seq" fs >>= as_int
  name ← get "event" fs >>= as_text
  timestamp ← get "timestamp" fs >>= as_float
  payload ← get "data" fs >>= as_fields
  some (event (record { seq = seq; event = name; timestamp = timestamp; payload = payload }))

read_protocol_error : Fields → Option WireMessage
read_protocol_error fs = do
  id ← get "id" fs >>= as_optional_text
  code ← get "code" fs >>= as_text
  message ← get "message" fs >>= as_text
  some (protocol_error (record { id = id; code = code; message = message }))

-- What `json.loads` makes of a line: a value, one of the two exceptions that are caught, the
-- `RecursionError` of a text that is nested too deep, or the plain `ValueError` of a text with an
-- integer of more digits than `int` converts (4300, unless the interpreter is told otherwise).
pub data Loads : Type 0 where
  loaded : Json → Loads
  decode_error too_deep too_many_digits : Loads

-- `Class.model_validate(payload)`, under `except ValueError`.
unfoldable pub validated :
    Validator → Decls → (Fields → Option WireMessage) → String → Fields → Outcome WireMessage
validated validate ds read name fs =
    elim (validate (model false false ds) (obj fs) >>= as_fields >>= read) [
      | none ↦ raised (protocol (invalid_message name))
      | some m ↦ returned m
    ]

-- `if payload.get("data") == []: payload["data"] = {}`
unfoldable pub normalize_data : Fields → Fields
normalize_data fs = elim (get "data" fs) [
  | none ↦ fs
  | some j ↦ if is_empty_list j then put "data" (obj empty) fs else fs
]

-- The dispatch on `message_type`, with null for a missing one.
decode_typed : Validator → Json → Fields → Outcome WireMessage
decode_typed validate message_type fs =
    if is_text "response" message_type
    then validated validate response_envelope read_response "response" fs
    else if is_text "event" message_type
    then validated validate raw_event read_event "event" (normalize_data fs)
    else if is_text "protocol_error" message_type
    then validated validate protocol_error_envelope read_protocol_error "protocol_error" fs
    else raised (protocol unknown_type)

abbrev pub or_null : Option Json → Json
or_null none = null
or_null (some j) = j

decode_payload : Validator → Json → Outcome WireMessage
unfolding decode_typed
decode_payload validate (obj fs) = decode_typed validate (or_null (get "type" fs)) fs
decode_payload validate _ = raised (protocol not_an_object)

unfoldable pub decode_message : (List ℕ → Loads) → Validator → List ℕ → Outcome WireMessage
unfolding decode_payload read_response read_event read_protocol_error
decode_message loads validate line =
    if ltb max_line_bytes (length line)
    then raised (protocol oversized_line)
    else elim (loads line) [
      | decode_error ↦ raised (protocol invalid_json)
      | too_deep ↦ raised (builtin recursion_error)
      | too_many_digits ↦ raised (builtin value_error)
      | loaded payload ↦ decode_payload validate payload
    ]

-- `TypeAdapter(result_type).validate_python(raw)`
unfoldable pub parse_result : Validator → Json → Annotation → Outcome Json
parse_result validate raw result_type = elim (validate result_type raw) [
  | none ↦ raised (protocol invalid_result)
  | some v ↦ returned v
]

-- `model_dump(mode="json", exclude_none=True)` of a request, which has no field that is None.
unfoldable pub dump_request : RequestEnvelope → Fields
dump_request r = field "v" (int (pos 1)) (
    field "id" (str r.id) (
      field "type" (str "request")
        (field "method" (str r.method) (field "params" (obj r.params) empty))))

-- `encode_line` of a request; `dumps` is `json.dumps` with compact separators, encoded as UTF-8.
unfoldable pub encode_line : (Json → List ℕ) → RequestEnvelope → List ℕ
unfolding dump_request
encode_line dumps message = dumps (obj (dump_request message)) ++ newline_byte ∷ []
