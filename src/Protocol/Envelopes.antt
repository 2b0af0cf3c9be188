-- ===== src/Protocol/Envelopes.antt =====
-- The envelope classes of protocol.py: their instances, and their field declarations.
use macpony.Prelude.{String, Bool, false, Option, [], ◌∷◌}
use macpony.Prelude.Int.{ℤ}
use macpony.Json.{Float, Json, null, obj, Fields, empty}
use macpony.Pydantic.{
  any_value, str_type, int_type, float_type, bool_type, literal_str, literal_int, optional, dict_of,
  model, Decls, done, required, default,
}

-- The instances of the envelope classes, with the fields that are not fixed by a `Literal`.
pub record RequestEnvelope : Type 0 where
  pub id : String
  pub method : String
  pub params : Fields

pub record ErrorInfo : Type 0 where
  pub code : String
  pub message : String

pub record ResponseEnvelope : Type 0 where
  pub id : String
  pub ok : Bool
  pub result : Json
  pub error : Option ErrorInfo

-- `payload` is the source's `data`.
pub record RawEvent : Type 0 where
  pub seq : ℤ
  pub event : String
  pub timestamp : Float
  pub payload : Fields

pub record ProtocolErrorEnvelope : Type 0 where
  pub id : Option String
  pub code : String
  pub message : String

-- The field declarations of the envelope classes.
abbrev pub error_info : Decls
error_info = required "code" str_type (required "message" str_type done)

abbrev pub response_envelope : Decls
response_envelope = required "v" (literal_int 1) (
    required "id" str_type (
      required "type" (literal_str ("response" ∷ [])) (
        required "ok" bool_type (
          default "result" any_value null
            (default "error" (optional (model false false error_info)) null done)))))

abbrev pub raw_event : Decls
raw_event = required "v" (literal_int 1) (
    required "type" (literal_str ("event" ∷ [])) (
      required "seq" int_type (
        required "event" str_type
          (required "timestamp" float_type (default "data" (dict_of any_value) (obj empty) done)))))

abbrev pub protocol_error_envelope : Decls
protocol_error_envelope = required "v" (literal_int 1) (
    required "type" (literal_str ("protocol_error" ∷ [])) (
      default "id" (optional str_type) null
        (required "code" str_type (required "message" str_type done))))

-- `WireMessage`
pub data WireMessage : Type 0 where
  response : ResponseEnvelope → WireMessage
  event : RawEvent → WireMessage
  protocol_error : ProtocolErrorEnvelope → WireMessage
