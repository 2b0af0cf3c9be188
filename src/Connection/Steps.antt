-- ===== src/Connection/Steps.antt =====
-- Every interleaving of the pieces: an action is one piece, with what its environment did, and a
-- run is a list of actions. Actions may come in any order, also in orders that no event loop takes,
-- so that what holds after every run holds of the program.
use Prim.Native.String.{count}
use macpony.Prelude.{ℕ, String, ◌≡◌, Bool, Option, List, [], ◌∷◌}
use macpony.Errors.{Exception}
use macpony.Json.{Fields}
use macpony.Pydantic.{Annotation, Validator}
use macpony.Protocol.{WireMessage}
use macpony.Connection.{
  SocketConnection, Call, Writing, Waited, begin_call, write_request, begin_write, end_write,
  finish_call, handle_message, begin_connect, attach, connect_refused, connect_finish,
  begin_disconnect, end_disconnect, reconnect_open, reconnect_finish, begin_close, end_close,
}

-- `begins_write` and `ends_write` are the block under the write lock up to its `drain` and from
-- there on; `writes` is the whole block.
pub data Action : Type 0 where
  calls : String → String → Option Fields → Action
  writes ends_write : Writing → Call → Action
  begins_write : Call → Action
  waits : Annotation → Waited → Call → Action
  reads : WireMessage → Action
  starts_connect attaches refuses_connect : Action
  finishes_connect : Option Exception → Action
  starts_disconnect : Option ℕ → Exception → Action
  ends_disconnect : Action
  opens_reconnect : Bool → Action
  finishes_reconnect : Option Exception → Action
  starts_close ends_close : Action

unfoldable pub step : Validator → Action → SocketConnection → SocketConnection
step validate (calls random method params) s = (begin_call random method params s).1
step validate (writes w c) s = (write_request w c s).1
step validate (begins_write c) s = (begin_write c s).1
step validate (ends_write w c) s = (end_write w c s).1
step validate (waits a w c) s = (finish_call validate a w c s).1
step validate (reads m) s = handle_message validate m s
step validate starts_connect s = (begin_connect s).1
step validate attaches s = attach s
step validate refuses_connect s = (connect_refused s).1
step validate (finishes_connect e) s = (connect_finish e s).1
step validate (starts_disconnect current e) s = (begin_disconnect current e s).1
step validate ends_disconnect s = end_disconnect s
step validate (opens_reconnect opened) s = reconnect_open opened s
step validate (finishes_reconnect e) s = reconnect_finish e s
step validate starts_close s = begin_close s
step validate ends_close s = end_close s

unfoldable pub run : Validator → List Action → SocketConnection → SocketConnection
unfolding step
run validate [] s = s
run validate (a ∷ actions) s = run validate actions (step validate a s)

-- `uuid4().hex[:8]` is eight characters long.
abbrev pub IsProper : Action → Type 0
IsProper (calls random method params) = count random ≡ 8
IsProper _ = Unit {0}
