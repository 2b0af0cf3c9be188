-- ===== src/Server/Answers.antt =====
-- The client reads what the server answers.
use macpony.Prelude.{
  ℕ, ◌≤◌, String, ◌≡◌, refl, true, false, Option, none, some, List, arith, length,
}
use Prim.Native.String
use macpony.Constants.{max_line_bytes}
use macpony.Errors.{Outcome, returned, raised, rpc_exception}
use macpony.Json.{Json, null, obj, Fields, get}
use macpony.Pydantic.{Annotation, Validator, IsPydantic}
use macpony.Protocol.{ResponseEnvelope, response, Loads, loaded, decode_message, parse_result}
use macpony.Protocol.Decode.{decode_message-response, decode_message-error_response}
use macpony.Prelude.{Option-cases}
use macpony.Connection.{finish_response}
use macpony.Server.Wire.{Request, success, failure}
use macpony.Server.Dispatch.{Handled, raises, returns, fails, Methods, or_else, respond, handle}

-- What the handler of a method makes of a call, as the client's caller should see it.
abbrev pub expected : Validator → Annotation → String → Option Handled → Outcome Json
expected validate a method none =
    raised (rpc_exception "METHOD_NOT_FOUND" (Prim.Native.String.◌++◌ "unknown method: " method))
expected validate a method (some (returns r)) = parse_result validate r a
expected validate a method (some (raises m)) = raised (rpc_exception "INTERNAL_ERROR" m)
expected validate a method (some (fails code m)) =
    raised (rpc_exception (or_else code "INVALID_PARAMS") (or_else m "request failed"))

-- What a method's handler does with a request, if the server has one.
abbrev pub handled : Methods → Request → Option Handled
handled methods r = elim (methods r.method) [ none ↦ none | some handler ↦ some (handler r.params) ]

-- The answer to a request, from what its handler did.
abbrev pub answer_to : String → String → Option Handled → Fields
answer_to id method none =
    failure id "METHOD_NOT_FOUND" (Prim.Native.String.◌++◌ "unknown method: " method)
answer_to id method (some h) = respond id h

module _ (validate : Validator) (p : IsPydantic validate) (loads : List ℕ → Loads) (line : List ℕ)
    (short : length line ≤ max_line_bytes) where
  decode-success :
      (id : String) (result : Json)
      → loads line ≡ loaded (obj (success id result))
      → decode_message loads validate line
        ≡ returned (response (record { id = id; ok = true; result = result; error = none }))
  unfolding success get
  decode-success id null text =
      decode_message-response validate p loads line _ short text refl id true none refl refl refl
        refl refl
  decode-success id result text =
      decode_message-response validate p loads line _ short text refl id true (some result) refl
        refl refl refl refl

  decode-failure :
      (id code message : String)
      → loads line ≡ loaded (obj (failure id code message))
      → decode_message loads validate line
        ≡ returned (
            response (record {
              id = id;
              ok = false;
              result = null;
              error = some (record { code = code; message = message });
            }))
  unfolding failure get
  decode-failure id code message text =
      decode_message-error_response validate p loads line _ short text refl id false _ code message
        refl refl refl refl refl refl refl

  pub decode-answer :
      (a : Annotation) (id method : String) (o : Option Handled)
      → loads line ≡ loaded (obj (answer_to id method o))
      → (m : ResponseEnvelope) × (decode_message loads validate line ≡ returned (response m))
        × (m.id ≡ id)
        × (finish_response validate method a m ≡ expected validate a method o)
  unfolding finish_response
  decode-answer a id method none text = (_, decode-failure id _ _ text, refl, refl)
  decode-answer a id method (some (raises m)) text = (_, decode-failure id _ _ text, refl, refl)
  decode-answer a id method (some (returns r)) text = (_, decode-success id r text, refl, refl)
  decode-answer a id method (some (fails code m)) text = (_, decode-failure id _ _ text, refl, refl)

pub handle-answer_to :
    (methods : Methods) (r : Request)
    → handle methods r ≡ answer_to r.id r.method (handled methods r)
unfolding handle
handle-answer_to methods r = ground (arith, Option-cases (methods r.method))
