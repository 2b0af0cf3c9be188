-- ===== src/Connection/Reading.antt =====
-- The pieces of the reader task: what `_reader_loop` does with one record.
use macpony.Prelude.{ℕ, String, Bool, true, false, none, some, List, [], ◌∷◌, if◌then◌else◌}
use macpony.Prelude.Dict.{lookup, erase}
use macpony.Errors.{
  Exception, returned, raised, protocol, builtin, connection_lost, cancelled_error, recursion_error,
  transport_failed, server_reported,
}
use macpony.Connection.Lifecycle.{handle_disconnect}
use macpony.Pydantic.{Validator}
use macpony.Protocol.{WireMessage, response, event, protocol_error, Loads, decode_message}
use macpony.Events.{parse_event}
use macpony.Connection.State.{
  Future, resolved, failed, delivered, SocketConnection, perform, settle,
}

-- `future = self._pending.pop(id, None)`, and the future is settled if there is one.
unfoldable pub pop_and_settle : String → Future → SocketConnection → SocketConnection
unfolding settle
pop_and_settle id outcome s = elim (lookup id s.pending) [
  | none ↦ s
  | some f ↦ record s { pending = erase id s.pending; futures = settle f outcome s.futures }
]

-- The dispatch on the class of the message.
unfoldable pub handle_message : Validator → WireMessage → SocketConnection → SocketConnection
unfolding pop_and_settle
handle_message validate (response m) s = pop_and_settle m.id (resolved m) s
handle_message validate (event raw) s = elim (parse_event validate raw) [
  | none ↦ s
  | some e ↦ perform (delivered e) s
]
handle_message validate (protocol_error m) s = elim m.id [
  | none ↦ s
  | some id ↦ pop_and_settle id (failed (protocol (server_reported m.code m.message))) s
]

-- The end of the task by an exception: `except (ConnectionLostError, OSError, MacAPIError,
-- ValueError)` handles it as a disconnect, run by the connection's own reader task while nothing
-- else runs at its `await`; `CancelledError` and `RecursionError` leave the task.
unfoldable pub reader_failed : Exception → SocketConnection → SocketConnection
unfolding handle_disconnect
reader_failed (builtin recursion_error) s = s
reader_failed (builtin cancelled_error) s = s
reader_failed (connection_lost c) s = handle_disconnect s.reader_task (connection_lost c) s
reader_failed e s = handle_disconnect s.reader_task (connection_lost transport_failed) s

-- One round of the loop, and whether the task goes on: a malformed record is skipped, and any other
-- exception ends the task.
unfoldable pub handle_record :
    (List ℕ → Loads) → Validator → List ℕ → SocketConnection → Bool × SocketConnection
unfolding handle_message reader_failed
handle_record loads validate line s = elim (decode_message loads validate line) [
  | returned m ↦ (true, handle_message validate m s)
  | raised (protocol r) ↦ (true, s)
  | raised e ↦ (false, reader_failed e s)
]

-- The loop over the records that `_iter_lines` yields, and whether the task goes on after them.
unfoldable pub read_records :
    (List ℕ → Loads) → Validator → List (List ℕ) → SocketConnection → Bool × SocketConnection
unfolding handle_record
read_records loads validate [] s = (true, s)
read_records loads validate (line ∷ lines) s =
    let (goes_on, s') = handle_record loads validate line s in
    let rest = read_records loads validate lines s' in if goes_on then rest else (false, s')
