-- ===== src/Server/Dispatch.antt =====
-- `M.handle` of hammerspoon/macapi/dispatcher.lua, and the end of `callback` in server.lua.
use macpony.Prelude.{ℕ, String, Option, none, some, List}
use Prim.Native.String.{◌++◌}
use macpony.Json.{Json, Fields}
use macpony.Server.Wire.{
  Request, Refusal, accepted, refused, decode, success, failure, protocol_failure,
}

-- What a handler does: it raises, or it returns `(result, error)`, where an error may lack its code
-- or its message.
pub data Handled : Type 0 where
  raises : String → Handled
  returns : Json → Handled
  fails : Option String → Option String → Handled

-- The table of handlers.
abbrev pub Methods : Type 0
Methods = String → Option (Json → Handled)

-- `a or b`
abbrev pub or_else : Option String → String → String
or_else none t = t
or_else (some s) t = s

abbrev pub respond : String → Handled → Fields
respond id (raises message) = failure id "INTERNAL_ERROR" message
respond id (returns result) = success id result
respond id (fails code message) =
    failure id (or_else code "INVALID_PARAMS") (or_else message "request failed")

-- The response envelope of a request.
unfoldable pub handle : Methods → Request → Fields
unfolding success failure
handle methods r = elim (methods r.method) [
  | none ↦ failure r.id "METHOD_NOT_FOUND" ("unknown method: " ++ r.method)
  | some handler ↦ respond r.id (handler r.params)
]

-- The texts of the refusals, which come from `hs.json` too.
unfoldable pub serve : (List ℕ → Option Json) → (Refusal → String) → Methods → List ℕ → Fields
unfolding decode handle protocol_failure
serve hs_decode text methods line = elim (decode hs_decode line) [
  | accepted r ↦ handle methods r
  | refused reason id ↦ protocol_failure id (text reason)
]
