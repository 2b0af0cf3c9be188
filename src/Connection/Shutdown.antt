-- ===== src/Connection/Shutdown.antt =====
-- Closing is final, and what it does while another task waits.
use macpony.Prelude.{
  String, ◌≡◌, refl, true, false, Option, none, some, List, [], ◌∷◌, arith, append-nil,
}
use macpony.Errors.{
  raised, connection, connection_lost, is_closing, not_connected, connection_closed,
}
use macpony.Json.{Fields}
use macpony.Pydantic.{Validator}
use macpony.Protocol.{response, event, protocol_error}
use macpony.Connection.{
  write_request, begin_write, end_write, finish_call, handle_message, attach, connect_refused,
  settled, timed_out, cancelled, lock_cancelled, disconnected, absent, SocketConnection, begin_call,
  begin_connect, connect_finish, begin_disconnect, end_disconnect, reconnect_open, reconnect_finish,
  begin_close, end_close, close,
}
use macpony.Connection.Pieces.{fail_pending-empty}
use macpony.Connection.Steps.{
  Action, writes, waits, reads, finishes_connect, finishes_reconnect, step, run,
}

pub close-again :
    (t : SocketConnection)
    → t.state ≡ disconnected
    → t.is_closing ≡ true
    → t.connected_event ≡ false
    → t.reader ≡ none
    → t.writer ≡ none
    → t.reader_task ≡ none
    → t.reconnect_task ≡ absent
    → t.pending ≡ []
    → close t ≡ t
unfolding close
close-again t st c ev r w rt rc p = ground (arith, append-nil t.effects)

-- After `close` there is no transport, no registered call, no reconnect task and no connected event;
-- a call and a connect are refused, and to close again changes nothing.
close-IsFinal :
    (s : SocketConnection) (random method : String) (params : Option Fields)
    → let s' = close s in
      (s'.state ≡ disconnected)
      × (s'.writer ≡ none)
      × (s'.pending ≡ [])
      × (s'.reconnect_task ≡ absent)
      × (s'.connected_event ≡ false)
      × (begin_call random method params s' ≡ (raised (connection not_connected), s'))
      × (begin_connect s' ≡ (raised (connection is_closing), s'))
      × (close s' ≡ s')
unfolding close begin_call begin_connect
close-IsFinal s random method params = (
  refl,
  refl,
  fail_pending-empty (connection_lost connection_closed) s.pending s.futures,
  refl,
  refl,
  refl,
  refl,
  close-again (close s) refl refl refl refl refl refl refl
      (fail_pending-empty (connection_lost connection_closed) s.pending s.futures),
)

step-closing :
    (validate : Validator) (a : Action) (s : SocketConnection)
    → s.is_closing ≡ true
    → (step validate a s).is_closing ≡ true
unfolding step begin_call write_request begin_write end_write finish_call handle_message
    begin_connect attach connect_refused connect_finish begin_disconnect end_disconnect
    reconnect_open reconnect_finish begin_close end_close
step-closing validate (waits a settled c) s h = ground arith
step-closing validate (waits a timed_out c) s h = ground arith
step-closing validate (waits a cancelled c) s h = ground arith
step-closing validate (reads (response m)) s h = ground arith
step-closing validate (reads (event raw)) s h = ground arith
step-closing validate (reads (protocol_error m)) s h = ground arith
step-closing validate (finishes_connect none) s h = ground arith
step-closing validate (finishes_connect (some e)) s h = ground arith
step-closing validate (finishes_reconnect none) s h = ground arith
step-closing validate (finishes_reconnect (some e)) s h = ground arith
step-closing validate (writes lock_cancelled c) s h = h
step-closing validate a s h = ground arith

-- Once `close` has begun, the client stays closing whatever its tasks still do.
run-stays_closing :
    (validate : Validator) (actions : List Action) (s : SocketConnection)
    → s.is_closing ≡ true
    → (run validate actions s).is_closing ≡ true
unfolding run
run-stays_closing validate [] s h = h
run-stays_closing validate (a ∷ actions) s h =
    run-stays_closing validate actions (step validate a s) (step-closing validate a s h)
