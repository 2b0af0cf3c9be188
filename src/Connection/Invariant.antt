-- ===== src/Connection/Invariant.antt =====
-- What holds of the connection however its tasks interleave.
use macpony.Prelude.{refl, Bool, none, some, List, [], ◌∷◌, All}
use macpony.Errors.{
  connection, connection_lost, connection_closed, initial_failed, handshake_failed,
}
use macpony.Pydantic.{Validator}
use macpony.Connection.{
  connected, disconnected, absent, SocketConnection, initial, drop_transport, connect_refused,
  connect_finish, begin_disconnect, reconnect_finish, task_after, begin_close, end_close,
}
use macpony.Connection.Steps.{
  Action, calls, writes, begins_write, ends_write, waits, reads, starts_connect, attaches,
  refuses_connect, finishes_connect, starts_disconnect, ends_disconnect, opens_reconnect,
  finishes_reconnect, starts_close, ends_close, step, run, IsProper,
}
use macpony.Connection.Pieces.{
  IsValid, IsRegister-empty, drop_transport-IsValid, set_state-IsValid, begin_call-IsValid,
  handle_message-IsValid, write_request-IsValid, begin_write-IsValid, end_write-IsValid,
  finish_call-IsValid, begin_connect-IsValid, attach-IsValid, end_disconnect-IsValid,
  reconnect_open-IsValid,
}

-- Every piece keeps the invariant.
pub step-IsValid :
    (validate : Validator) (a : Action) (s : SocketConnection)
    → IsProper a
    → IsValid s
    → IsValid (step validate a s)
unfolding step connect_refused connect_finish begin_disconnect reconnect_finish begin_close
    end_close
step-IsValid validate (calls random method params) s k h =
    begin_call-IsValid random method params s k h
step-IsValid validate (writes w c) s k h = write_request-IsValid w c s h
step-IsValid validate (begins_write c) s k h = begin_write-IsValid c s h
step-IsValid validate (ends_write w c) s k h = end_write-IsValid w c s h
step-IsValid validate (waits a w c) s k h = finish_call-IsValid validate a w c s h
step-IsValid validate (reads m) s k h = handle_message-IsValid validate m s h
step-IsValid validate starts_connect s k h = begin_connect-IsValid s h
step-IsValid validate attaches s k h = attach-IsValid s h
step-IsValid validate refuses_connect s k h =
    set_state-IsValid disconnected _ (drop_transport-IsValid none (connection initial_failed) s)
step-IsValid validate (finishes_connect none) s k h = set_state-IsValid connected s h
step-IsValid validate (finishes_connect (some e)) s k h = set_state-IsValid disconnected _ (
    drop_transport-IsValid none (connection initial_failed)
      (drop_transport none (connection handshake_failed) s))
step-IsValid validate (starts_disconnect current e) s k h = drop_transport-IsValid current e s
step-IsValid validate ends_disconnect s k h = end_disconnect-IsValid s h
step-IsValid validate (opens_reconnect opened) s k h = reconnect_open-IsValid opened s h
step-IsValid validate (finishes_reconnect none) s k h = record {
  calls_register = h.calls_register;
  one_reader = h.one_reader;
  one_task = h.one_task;
}
step-IsValid validate (finishes_reconnect (some e)) s k h =
    drop_transport-IsValid none (connection handshake_failed)
      (record s { reconnect_task = task_after e s.reconnect_task })
step-IsValid validate starts_close s k h = record {
  calls_register = h.calls_register;
  one_reader = h.one_reader;
  one_task = h.one_task;
}
step-IsValid validate ends_close s k h =
    let v =
      drop_transport-IsValid none (connection_lost connection_closed)
        (record s { reconnect_task = absent }) in
    record { calls_register = v.calls_register; one_reader = v.one_reader; one_task = v.one_task }

run-from-IsValid :
    (validate : Validator) (actions : List Action) (s : SocketConnection)
    → All IsProper actions
    → IsValid s
    → IsValid (run validate actions s)
unfolding run
run-from-IsValid validate [] s k h = h
run-from-IsValid validate (a ∷ actions) s k h =
    run-from-IsValid validate actions (step validate a s) k.1 (step-IsValid validate a s k.0 h)

-- After any interleaving of calls, messages, timeouts, disconnects, reconnects and closing, every
-- registered call has an id of its own, which the counter has issued, and a future of its own that
-- is not done; and the reader, the writer and the reader task are those of one stream.
pub run-IsValid :
    (validate : Validator) (auto_reconnect : Bool) (actions : List Action)
    → All IsProper actions
    → IsValid (run validate actions (initial auto_reconnect))
run-IsValid validate auto_reconnect actions k =
    run-from-IsValid validate actions (initial auto_reconnect) k
      (record { calls_register = IsRegister-empty [] 0; one_reader = refl; one_task = refl })
