-- ===== src/Connection/Locking/Open.antt =====
-- The streams that the pieces of the connection open and close.
use macpony.Prelude.{
  ℕ, ◌≡◌, refl, not, Option, none, some, List, [], ◌∷◌, ◌++◌, ◌==◌, arith, keep_if, inl, inr,
  Option-cases,
}
use macpony.Errors.{
  Exception, connection, initial_failed, handshake_failed, builtin, cancelled_error,
  connection_lost, connection_closed,
}
use macpony.Events.{parse_event}
use macpony.Protocol.{response, event, protocol_error}
use macpony.Pydantic.{Validator}
use macpony.Connection.{
  Effect, wrote, delivered, begin_call, register, next_request_id, write_request, begin_write,
  end_write, finish_call, handle_message, pop_and_settle, closed_writer, started_reader,
  started_reconnect, notified_disconnected, absent, task_after, cancel_effects, SocketConnection,
  drop_effects, drop_transport, attach, connect_refused, connect_finish, handle_disconnect,
  reconnect_finish, begin_close, end_close,
}
use macpony.Connection.Steps.{Action, calls, writes, begins_write, ends_write, waits, reads, step}
use macpony.Connection.Locking.{Lock, free, opening, shaking, first, again, IsWork, cancel_round}

-- The streams that are opened and whose writer is not closed.
abbrev pub after_effect : Effect → List ℕ → List ℕ
after_effect (started_reader n) open_ones = n ∷ open_ones
after_effect (closed_writer n) open_ones = keep_if (λ m. not (m == n)) open_ones
after_effect _ open_ones = open_ones

unfoldable pub open_streams : List Effect → List ℕ → List ℕ
open_streams [] open_ones = open_ones
open_streams (e ∷ es) open_ones = open_streams es (after_effect e open_ones)

abbrev pub current_stream : Option ℕ → List ℕ
current_stream none = []
current_stream (some w) = w ∷ []

open_streams-append :
    (es fs : List Effect) (l : List ℕ)
    → open_streams (es ++ fs) l ≡ open_streams fs (open_streams es l)
unfolding open_streams
open_streams-append [] fs l = refl
open_streams-append (e ∷ es) fs l = open_streams-append es fs (after_effect e l)

-- Only the writer's stream is open.
abbrev pub IsTidy : SocketConnection → Type 0
IsTidy s = open_streams s.effects [] ≡ current_stream s.writer

drop_transport-IsTidy :
    (current : Option ℕ) (e : Exception) (s : SocketConnection)
    → IsTidy s
    → IsTidy (drop_transport current e s) × ((drop_transport current e s).writer ≡ none)
unfolding drop_transport drop_effects open_streams
drop_transport-IsTidy current e s h =
    ground (arith, open_streams-append s.effects (drop_effects current s.reader_task s.writer) [])

pub attach-IsTidy : (s : SocketConnection) → s.writer ≡ none → IsTidy s → IsTidy (attach s)
unfolding attach open_streams
attach-IsTidy s e h =
    ground (arith, open_streams-append s.effects (started_reader s.streams ∷ []) [])

-- A piece that opens and ends no stream keeps the streams, the state and the reconnect task.
pub record IsSame (s t : SocketConnection) : Type 0 where
  pub writer : t.writer ≡ s.writer
  pub state : t.state ≡ s.state
  pub reconnect_task : t.reconnect_task ≡ s.reconnect_task
  pub streams : open_streams t.effects [] ≡ open_streams s.effects []

pub step-IsSame :
    (validate : Validator) (a : Action) (s : SocketConnection)
    → IsWork a
    → IsSame s (step validate a s)
unfolding step begin_call register begin_write end_write write_request finish_call handle_message
    pop_and_settle next_request_id open_streams
step-IsSame validate (calls random method params) s h = ground arith
step-IsSame validate (writes w c) s h =
    ground (arith, open_streams-append s.effects (wrote c.writer c.request ∷ []) [])
step-IsSame validate (begins_write c) s h =
    ground (arith, open_streams-append s.effects (wrote c.writer c.request ∷ []) [])
step-IsSame validate (ends_write w c) s h = ground arith
step-IsSame validate (waits a w c) s h = ground arith
step-IsSame validate (reads (response m)) s h = ground arith
step-IsSame validate (reads (protocol_error m)) s h = ground arith
step-IsSame validate (reads (event raw)) s h = elim (Option-cases (parse_event validate raw)) [
  | inl e ↦ ground arith
  | inr (ev, e) ↦ ground (arith, open_streams-append s.effects (delivered ev ∷ []) [])
]
step-IsSame validate _ s h = absurd h

-- The transport is dropped, and nothing is opened.
unfoldable pub IsDown : SocketConnection → Type 0
IsDown s = IsTidy s × (s.writer ≡ none)

pub handle_disconnect-IsDown :
    (current : Option ℕ) (e : Exception) (s : SocketConnection)
    → IsTidy s
    → IsDown (handle_disconnect current e s)
unfolding IsDown handle_disconnect open_streams
handle_disconnect-IsDown current e s h =
    let t = drop_transport current e s in
    let (tidy, down) = drop_transport-IsTidy current e s h in
    ground (
      arith,
      tidy,
      down,
      open_streams-append t.effects (started_reconnect ∷ []) [],
      open_streams-append t.effects (notified_disconnected ∷ []) [],
    )

pub connect_refused-IsDown : (s : SocketConnection) → IsTidy s → IsDown (connect_refused s).1
unfolding IsDown connect_refused
connect_refused-IsDown s h = drop_transport-IsTidy none (connection initial_failed) s h

pub connect_finish-IsDown :
    (e : Exception) (s : SocketConnection) → IsTidy s → IsDown (connect_finish (some e) s).1
unfolding IsDown connect_finish
connect_finish-IsDown e s h =
    let (tidy, _) = drop_transport-IsTidy none (connection handshake_failed) s h in
    drop_transport-IsTidy none (connection initial_failed)
      (drop_transport none (connection handshake_failed) s) tidy

pub reconnect_finish-IsDown :
    (e : Exception) (s : SocketConnection) → IsTidy s → IsDown (reconnect_finish (some e) s)
unfolding IsDown reconnect_finish
reconnect_finish-IsDown e s h =
    drop_transport-IsTidy none (connection handshake_failed)
      (record s { reconnect_task = task_after e s.reconnect_task }) h

pub begin_close-IsTidy : (s : SocketConnection) → IsTidy s → IsTidy (begin_close s)
unfolding begin_close open_streams
begin_close-IsTidy s h =
    ground (arith, open_streams-append s.effects (cancel_effects s.reconnect_task) [])

pub cancel_round-IsTidy :
    (lock : Lock) (s : SocketConnection) → IsTidy s → IsTidy (cancel_round lock s)
unfolding IsDown
cancel_round-IsTidy free s h = h
cancel_round-IsTidy (opening by) s h = h
cancel_round-IsTidy (shaking first) s h = h
cancel_round-IsTidy (shaking again) s h = (reconnect_finish-IsDown (builtin cancelled_error) s h).0

pub end_close-IsDown : (s : SocketConnection) → IsTidy s → IsDown (end_close s)
unfolding IsDown end_close
end_close-IsDown s h =
    drop_transport-IsTidy none (connection_lost connection_closed)
      (record s { reconnect_task = absent }) h
