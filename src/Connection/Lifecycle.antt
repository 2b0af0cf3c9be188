-- ===== src/Connection/Lifecycle.antt =====
-- The pieces of `connect`, `_connect_once`, `_handle_disconnect`, `_reconnect_loop` and `close`.
use macpony.Prelude.{
  ℕ, suc, Bool, true, false, Option, none, some, List, [], ◌∷◌, ◌++◌, if◌then◌else◌,
}
use macpony.Errors.{
  Exception, Outcome, returned, raised, connection, connection_lost, is_closing, initial_failed,
  handshake_failed, unable_to_connect, connection_closed, builtin, os_error,
}
use macpony.Connection.State.{
  disconnected, connecting, connected, reconnecting, closing, Effect, Task, absent, running,
  finished, started_reader, started_reconnect, cancelled_reconnect, notified_disconnected,
  SocketConnection, is_connected_state, set_state, perform, drop_transport,
}

-- The start of `connect` under its lock: whether a stream is to be opened.
unfoldable pub begin_connect : SocketConnection → Outcome Bool × SocketConnection
unfolding set_state
begin_connect s =
    if is_connected_state s.state
    then (returned false, s)
    else if s.is_closing
    then (raised (connection is_closing), s)
    else (returned true, set_state connecting s)

-- `_connect_once` once `open_unix_connection` has returned: the new stream and its reader task.
unfoldable pub attach : SocketConnection → SocketConnection
attach s = perform (started_reader s.streams) (record s {
  reader = some s.streams;
  writer = some s.streams;
  reader_task = some s.streams;
  streams = suc s.streams;
})

-- `connect` when `open_unix_connection` has raised `OSError`, and what it raises.
unfoldable pub connect_refused : SocketConnection → Exception × SocketConnection
unfolding drop_transport set_state
connect_refused s = (
  connection unable_to_connect,
  set_state disconnected (drop_transport none (connection initial_failed) s),
)

-- `connect` when `_on_connected` has returned, or has raised.
unfoldable pub connect_finish :
    Option Exception → SocketConnection → Outcome Bool × SocketConnection
unfolding drop_transport set_state
connect_finish none s = (returned true, set_state connected s)
connect_finish (some e) s = (
  raised e,
  set_state disconnected (
      drop_transport none (connection initial_failed)
        (drop_transport none (connection handshake_failed) s)),
)

-- `_handle_disconnect` up to its `await`: whether the client was closing, and the state.
unfoldable pub begin_disconnect : Option ℕ → Exception → SocketConnection → Bool × SocketConnection
unfolding drop_transport
begin_disconnect current error s = (s.is_closing, drop_transport current error s)

-- `self._reconnect_task is None or self._reconnect_task.done()`
abbrev pub needs_task : Task → Bool
needs_task running = false
needs_task _ = true

start_reconnect : SocketConnection → SocketConnection
start_reconnect s =
    if needs_task s.reconnect_task
    then perform started_reconnect (record s { reconnect_task = running })
    else s

-- The rest of `_handle_disconnect`, when the client was not closing at its start.
unfoldable pub end_disconnect : SocketConnection → SocketConnection
unfolding start_reconnect set_state
end_disconnect s =
    if s.auto_reconnect
    then start_reconnect (set_state reconnecting s)
    else perform notified_disconnected (set_state disconnected s)

-- `_handle_disconnect` when nothing else runs at its `await`.
unfoldable pub handle_disconnect : Option ℕ → Exception → SocketConnection → SocketConnection
unfolding begin_disconnect end_disconnect
handle_disconnect current error s =
    let (was_closing, s') = begin_disconnect current error s in
    if was_closing then s' else end_disconnect s'

-- A round of `_reconnect_loop` up to the handshake: it returns if the client is closing; else the
-- stream is opened, or `_connect_once` raises and the task sleeps.
unfoldable pub reconnect_open : Bool → SocketConnection → SocketConnection
unfolding attach
reconnect_open opened s =
    if s.is_closing then record s { reconnect_task = finished } else if opened then attach s else s

-- `except (OSError, ConnectionError, ProtocolError, MacAPIError)`: any other exception of the
-- handshake ends the task.
abbrev pub task_after : Exception → Task → Task
task_after (builtin os_error) t = t
task_after (builtin c) t = finished
task_after e t = t

-- The end of a round: the handshake succeeds and the task returns, or it fails and the task sleeps
-- or ends.
unfoldable pub reconnect_finish : Option Exception → SocketConnection → SocketConnection
unfolding drop_transport set_state
reconnect_finish none s = record (set_state connected s) { reconnect_task = finished }
reconnect_finish (some e) s =
    drop_transport none (connection handshake_failed)
      (record s { reconnect_task = task_after e s.reconnect_task })

-- `self._reconnect_task.cancel()`, which does nothing to a task that is done.
abbrev pub cancel_effects : Task → List Effect
cancel_effects running = cancelled_reconnect ∷ []
cancel_effects _ = []

-- `close` up to the `await` of the cancelled task.
unfoldable pub begin_close : SocketConnection → SocketConnection
unfolding set_state
begin_close s =
    let s' = set_state closing (record s { is_closing = true }) in
    record s' { effects = s.effects ++ cancel_effects s.reconnect_task }

-- The rest of `close`: `_reconnect_task = None`, and `_drop_transport`.
unfoldable pub end_close : SocketConnection → SocketConnection
unfolding drop_transport set_state
end_close s =
    let s' =
      drop_transport none (connection_lost connection_closed)
        (record s { reconnect_task = absent }) in
    record (set_state disconnected s') { connected_event = false }

-- `close` when nothing else runs at its `await`s.
unfoldable pub close : SocketConnection → SocketConnection
unfolding begin_close end_close
close s = end_close (begin_close s)
