-- ===== src/Connection/Races.antt =====
-- What the pieces do in orders that the source's comments do not speak of.
use text.Mathlib.TextPositions.{eq_refl}
use macpony.Prelude.{
  ℕ, ◌+◌, ◌≤◌, String, ◌≡◌, refl, Bool, true, false, Bool-cases, ◌⊎◌, inl, inr, Option, none, some,
  List, [], ◌∷◌, ◌++◌, arith, length, All, get_elem?-append_end,
}
use macpony.Prelude.Dict.{lookup-insert}
use macpony.Constants.{max_line_bytes}
use macpony.Errors.{
  Exception, returned, raised, builtin, cancelled_error, value_error, connection_lost,
  transport_failed,
}
use macpony.Pydantic.{Validator}
use macpony.Protocol.{Loads, too_deep, too_many_digits, decode_message}
use macpony.Connection.Delivery.{IsTame, handle_record-effects}
use macpony.Connection.{
  SocketConnection, connected, started_reader, reconnecting, running, waiting, needs_task, may_call,
  Call, Writing, lock_cancelled, drain_cancelled, begin_call, write_request, begin_connect, attach,
  connect_finish, begin_disconnect, end_disconnect, reconnect_open, close, handle_record,
  read_records, handle_disconnect,
}
use macpony.Connection.Steps.{
  starts_connect, attaches, finishes_connect, ends_disconnect, opens_reconnect, step, run,
}
use macpony.Connection.Ids.{request_id}
use macpony.Connection.Correlation.{IsWaiting}

module _ (current : Option ℕ) (e : Exception) (s : SocketConnection)
    (auto : s.auto_reconnect ≡ true) where
  -- With automatic reconnection, a `close` that runs while `_handle_disconnect` awaits the end of
  -- the old transport is overwritten: the client stays in the state `reconnecting` for good, since
  -- the reconnect task that is started then returns at once and a `connect` is refused.
  close_overwritten :
      (opened : Bool)
      → let s' = end_disconnect (close (begin_disconnect current e s).1) in
        (s'.state ≡ reconnecting)
        × (s'.is_closing ≡ true)
        × ((reconnect_open opened s').state ≡ reconnecting)
        × ((begin_connect s').1.state ≡ reconnecting)
  unfolding close begin_disconnect end_disconnect reconnect_open begin_connect
  close_overwritten opened = ground arith

  -- With automatic reconnection, if the transport is lost just as the handshake of a `connect`
  -- succeeds, the client ends in the state `reconnecting` with no transport and with the connected
  -- event set, so that `wait_until_connected` does not wait.
  connected_event_stale :
      let s' = end_disconnect (connect_finish none (begin_disconnect current e s).1).1 in
      (s'.state ≡ reconnecting) × (s'.writer ≡ none) × (s'.connected_event ≡ true)
  unfolding connect_finish begin_disconnect end_disconnect
  connected_event_stale = ground arith

  -- With automatic reconnection and no reconnect task, if the transport is lost during the
  -- handshake of a `connect`, that call raises, and yet a reconnect task is left running.
  failed_connect_reconnects :
      (error : Exception)
      → needs_task s.reconnect_task ≡ true
      → let (outcome, s') = connect_finish (some error) (begin_disconnect current e s).1 in
        (outcome ≡ raised error)
        × ((end_disconnect s').state ≡ reconnecting)
        × ((end_disconnect s').reconnect_task ≡ running)
  unfolding connect_finish begin_disconnect end_disconnect
  failed_connect_reconnects error idle = ground arith

-- A call that is cancelled while it waits for the write lock, or for the drain of a socket that is
-- still the one it read, stays registered under its id.
cancelled_write_leaks :
    (w : Writing) (c : Call) (s : SocketConnection)
    → (w ≡ lock_cancelled) ⊎ ((w ≡ drain_cancelled) × (s.writer ≡ some c.writer))
    → IsWaiting c.request.id c.future s
    → ((write_request w c s).0 ≡ raised (builtin cancelled_error))
      × IsWaiting c.request.id c.future (write_request w c s).1
unfolding write_request
cancelled_write_leaks lock_cancelled c s h k = (refl, k)
cancelled_write_leaks w c s h k =
    (ground arith, record { entry = ground (arith, k.entry); future = ground (arith, k.future) })

-- A call with parameters that are no JSON raises, and its id stays registered with a future that
-- nothing will settle but a response to a request that is never sent, or the loss of the transport.
refused_params_leak :
    (random method : String) (w : ℕ) (s : SocketConnection)
    → s.writer ≡ some w
    → may_call s.state ≡ true
    → let (outcome, s') = begin_call random method none s in
      (outcome ≡ raised (builtin value_error))
      × IsWaiting (request_id (s.request_counter + 1) random) (length s.futures) s'
unfolding begin_call
refused_params_leak random method w s e q =
    let id = request_id (s.request_counter + 1) random in
    (
      ground arith,
      record {
        entry = ground (arith, lookup-insert id id (length s.futures) s.pending, eq_refl id);
        future = ground (arith, get_elem?-append_end s.futures waiting);
      },
    )

-- A record within the size limit that is nested too deep for `json.loads` ends the reader task, and
-- leaves the rest of the connection as it was: the state, the transport and the waiting calls.
too_deep_ends_reader :
    (loads : List ℕ → Loads) (validate : Validator) (line : List ℕ) (s : SocketConnection)
    → length line ≤ max_line_bytes
    → loads line ≡ too_deep
    → handle_record loads validate line s ≡ (false, s)
unfolding handle_record decode_message
too_deep_ends_reader loads validate line s h k = ground arith

-- A record within the size limit that has an integer of too many digits for `json.loads` ends the
-- reader task with a disconnect, whatever comes behind it: the records before it have had their
-- effects, the transport is lost, and no later record is handled.
too_many_digits_disconnects :
    (loads : List ℕ → Loads) (validate : Validator) (before after : List (List ℕ)) (line : List ℕ)
    (s : SocketConnection)
    → All (λ l. IsTame (loads l)) before
    → length line ≤ max_line_bytes
    → loads line ≡ too_many_digits
    → let t = (read_records loads validate before s).1 in
      read_records loads validate (before ++ line ∷ after) s
      ≡ (false, handle_disconnect t.reader_task (connection_lost transport_failed) t)
unfolding read_records handle_record decode_message
too_many_digits_disconnects loads validate [] after line s b h k = ground arith
too_many_digits_disconnects loads validate (l ∷ before) after line s b h k =
    let s' = (handle_record loads validate l s).1 in
    rw
      (
        (handle_record-effects loads validate l s b.0).0,
        too_many_digits_disconnects loads validate before after line s' b.1 h k,
      )
      refl

-- If `connect` succeeds while the reconnect task sleeps, after a loss with automatic reconnection,
-- the task opens a second stream all the same. The first one stays open: its writer is not closed
-- and its reader task is not cancelled, and both are no longer known to the connection.
pub connect_beside_reconnect :
    (validate : Validator) (s : SocketConnection)
    → s.auto_reconnect ≡ true
    → s.is_closing ≡ false
    → let actions = ends_disconnect ∷ starts_connect ∷ attaches ∷ finishes_connect none ∷ [] in
      let t = run validate actions s in
      let u = run validate (opens_reconnect true ∷ []) t in
      ((begin_connect (end_disconnect s)).0 ≡ returned true)
      × (t.state ≡ connected)
      × (t.writer ≡ some s.streams)
      × (u.writer ≡ some (s.streams + 1))
      × (u.reader_task ≡ some (s.streams + 1))
      × (u.effects ≡ t.effects ++ started_reader (s.streams + 1) ∷ [])
unfolding run step begin_connect attach connect_finish end_disconnect reconnect_open
connect_beside_reconnect validate s auto open_still =
    elim (Bool-cases (needs_task s.reconnect_task)) [
      | inl h ↦ rw (auto, h, open_still) (ground arith)
      | inr h ↦ rw (auto, h, open_still) (ground arith)
    ]
