-- ===== src/Connection/Calls.antt =====
-- The pieces of `SocketConnection.call`.
use macpony.Prelude.{
  ℕ, ◌≡◌, refl, ◌≢◌, arith, String, Bool, true, false, Option, none, some, [], ◌∷◌, ◌++◌, length,
  get_elem?, ◌==◌, if◌then◌else◌,
}
use macpony.Prelude.Dict.{insert, erase}
use macpony.Errors.{
  Outcome, returned, raised, connection, connection_lost, not_connected, socket_changed, builtin,
  value_error, cancelled_error, protocol, no_error_information, rpc_timeout, rpc_exception,
}
use macpony.Json.{Json, Fields}
use macpony.Pydantic.{Annotation, Validator}
use macpony.Protocol.{RequestEnvelope, ResponseEnvelope, parse_result}
use macpony.Connection.State.{
  ConnectionState, connected, connecting, reconnecting, Future, waiting, resolved, failed, wrote,
  SocketConnection, perform, next_request_id,
}

-- `self._state not in (CONNECTED, CONNECTING, RECONNECTING)`, negated
abbrev pub may_call : ConnectionState → Bool
may_call connected = true
may_call connecting = true
may_call reconnecting = true
may_call _ = false

-- A call in flight: the writer it read, its request and its future.
pub record Call : Type 0 where
  pub writer : ℕ
  pub request : RequestEnvelope
  pub future : ℕ

-- A future is created and registered under a new id.
unfoldable pub register : ℕ → String → String → Fields → SocketConnection → Call × SocketConnection
unfolding next_request_id
register writer random method params s =
    let (id, s') = next_request_id random s in
    let future = length s.futures in
    (
      record {
        writer = writer;
        request = record { id = id; method = method; params = params };
        future = future;
      },
      record s' { futures = s.futures ++ waiting ∷ []; pending = insert id future s.pending },
    )

-- From the start of `call` to the lock. `params` is `none` if pydantic refuses the parameters as
-- JSON: `RequestEnvelope(…)` then raises, after the future was registered.
unfoldable pub begin_call :
    String → String → Option Fields → SocketConnection → Outcome Call × SocketConnection
unfolding register
begin_call random method params s = elim s.writer [
  | none ↦ (raised (connection not_connected), s)
  | some w ↦
      if may_call s.state
      then elim params [
        | some p ↦ let (c, s') = register w random method p s in (returned c, s')
        | none ↦ (raised (builtin value_error), (register w random method Fields.empty s).1)
      ]
      else (raised (connection not_connected), s)
]

-- `self._pending.pop(request_id, None)`
abbrev pub forget : String → SocketConnection → SocketConnection
forget id s = record s { pending = erase id s.pending }

-- How the wait for the lock and `writer.drain()` go: `OSError` and `RuntimeError` are one case.
pub data Writing : Type 0 where
  lock_cancelled drained drain_failed drain_cancelled : Writing

abbrev pub is_writer : ℕ → Option ℕ → Bool
is_writer n none = false
is_writer n (some m) = n == m

-- The block under `_write_lock`, up to the disconnect that a failed write starts. It returns
-- whether that follows.
unfoldable pub write_request : Writing → Call → SocketConnection → Outcome Bool × SocketConnection
write_request lock_cancelled c s = (raised (builtin cancelled_error), s)
write_request w c s =
    if is_writer c.writer s.writer
    then (let s' = perform (wrote c.writer c.request) s in
        elim w [
          | drained ↦ (returned false, s')
          | drain_failed ↦ (returned true, forget c.request.id s')
          | _ ↦ (raised (builtin cancelled_error), s')
        ])
    else (raised (connection_lost socket_changed), forget c.request.id s)

-- The block under `_write_lock` once the lock is there, up to `await writer.drain()`: whether the
-- request is written.
unfoldable pub begin_write : Call → SocketConnection → Outcome Bool × SocketConnection
begin_write c s =
    if is_writer c.writer s.writer
    then (returned true, perform (wrote c.writer c.request) s)
    else (raised (connection_lost socket_changed), forget c.request.id s)

-- The end of the drain, when other tasks have run meanwhile.
unfoldable pub end_write : Writing → Call → SocketConnection → Outcome Bool × SocketConnection
end_write drained c s = (returned false, s)
end_write drain_failed c s = (returned true, forget c.request.id s)
end_write _ c s = (raised (builtin cancelled_error), s)

-- With nothing between them, the two pieces are the block.
write_request-pieces :
    (w : Writing) (c : Call) (s : SocketConnection)
    → w ≢ lock_cancelled
    → let (begun, s') = begin_write c s in
      write_request w c s
      ≡ (elim begun [ returned _ ↦ end_write w c s' | raised e ↦ (raised e, s') ])
unfolding write_request begin_write end_write
write_request-pieces lock_cancelled c s h = absurd (h refl)
write_request-pieces drained c s h = ground arith
write_request-pieces drain_failed c s h = ground arith
write_request-pieces drain_cancelled c s h = ground arith

-- The checks of a response and of its result.
unfoldable pub finish_response : Validator → String → Annotation → ResponseEnvelope → Outcome Json
unfolding parse_result rpc_exception
finish_response validate method result_type r =
    if r.ok then parse_result validate r.result result_type else elim r.error [
      | none ↦ raised (protocol (no_error_information method))
      | some e ↦ raised (rpc_exception e.code e.message)
    ]

-- How `asyncio.wait_for(asyncio.shield(future), …)` ends.
pub data Waited : Type 0 where
  settled timed_out cancelled : Waited

-- `await` of the future, and what `call` makes of it; `none` while the future is not done.
unfoldable pub read_future : Validator → String → Annotation → Option Future → Option (Outcome Json)
unfolding finish_response
read_future validate method result_type (some (resolved r)) =
    some (finish_response validate method result_type r)
read_future validate method result_type (some (failed e)) = some (raised e)
read_future validate method result_type _ = none

-- The rest of `call`. While the future is not done, only a timeout or a cancellation ends the wait.
unfoldable pub finish_call :
    Validator
    → Annotation
    → Waited
    → Call
    → SocketConnection
    → Option (Outcome Json) × SocketConnection
unfolding read_future
finish_call validate result_type timed_out c s =
    (some (raised (rpc_timeout c.request.method)), forget c.request.id s)
finish_call validate result_type cancelled c s =
    (some (raised (builtin cancelled_error)), forget c.request.id s)
finish_call validate result_type settled c s =
    (read_future validate c.request.method result_type (get_elem? s.futures c.future), s)
