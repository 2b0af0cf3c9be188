-- ===== src/Connection/State.antt =====
-- The fields of `SocketConnection`, and `_set_state`, `_drop_transport` and `_next_request_id`.
use macpony.Prelude.{
  ℕ, ◌+◌, String, Bool, true, false, Option, none, some, List, [], ◌∷◌, ◌++◌, length, set,
  get_elem?, ◌==◌, if◌then◌else◌,
}
use macpony.Prelude.Dict.{Dict, erase}
use macpony.Errors.{Exception}
use macpony.Events.{MacEvent}
use macpony.Protocol.{RequestEnvelope, ResponseEnvelope}
use macpony.Connection.Ids.{request_id}

-- The enumeration of the source.
pub data ConnectionState : Type 0 where
  disconnected connecting connected reconnecting closing : ConnectionState

-- An `asyncio.Future[ResponseEnvelope]`.
pub data Future : Type 0 where
  waiting : Future
  resolved : ResponseEnvelope → Future
  failed : Exception → Future

-- `_reconnect_task`: None, not done, or done.
pub data Task : Type 0 where
  absent running finished : Task

-- What a piece does to the world outside the object, in order.
pub data Effect : Type 0 where
  wrote : ℕ → RequestEnvelope → Effect
  closed_writer started_reader cancelled_reader : ℕ → Effect
  started_reconnect cancelled_reconnect notified_disconnected : Effect
  delivered : MacEvent → Effect

-- Opened streams are numbered: stream n has a reader, a writer and a reader task of that number.
-- Futures are numbered in the order of their creation, and `pending` maps ids to their numbers.
pub record SocketConnection : Type 0 where
  pub auto_reconnect : Bool
  pub state : ConnectionState
  pub is_closing : Bool
  pub connected_event : Bool
  pub reader : Option ℕ
  pub writer : Option ℕ
  pub reader_task : Option ℕ
  pub reconnect_task : Task
  pub pending : Dict ℕ
  pub request_counter : ℕ
  pub futures : List Future
  pub streams : ℕ
  pub effects : List Effect

-- `__init__`
abbrev pub initial : Bool → SocketConnection
initial auto_reconnect = record {
  auto_reconnect = auto_reconnect;
  state = disconnected;
  is_closing = false;
  connected_event = false;
  reader = none;
  writer = none;
  reader_task = none;
  reconnect_task = absent;
  pending = [];
  request_counter = 0;
  futures = [];
  streams = 0;
  effects = [];
}

abbrev pub is_connected_state : ConnectionState → Bool
is_connected_state connected = true
is_connected_state _ = false

-- `pending_count`
unfoldable pub pending_count : SocketConnection → ℕ
pending_count s = length s.pending

-- `wait_until_connected`: does it return at once?
unfoldable pub wait_until_connected : SocketConnection → Bool
wait_until_connected s = s.connected_event

-- The event after `_set_state`.
abbrev pub event_after : ConnectionState → Bool → Bool
event_after connected e = true
event_after disconnected e = false
event_after closing e = false
event_after _ e = e

unfoldable pub set_state : ConnectionState → SocketConnection → SocketConnection
set_state st s = record s { state = st; connected_event = event_after st s.connected_event }

abbrev pub perform : Effect → SocketConnection → SocketConnection
perform e s = record s { effects = s.effects ++ e ∷ [] }

-- `if not future.done(): future.set_…`
unfoldable pub settle : ℕ → Future → List Future → List Future
settle f outcome futures = elim (get_elem? futures f) [
  | some waiting ↦ set futures f outcome
  | _ ↦ futures
]

-- `for request_id, future in list(self._pending.items())`: what is left of the dict, and the
-- futures.
unfoldable pub fail_pending : Exception → Dict ℕ → Dict ℕ → List Future → Dict ℕ × List Future
unfolding settle
fail_pending error [] pending futures = (pending, futures)
fail_pending error ((id, f) ∷ items) pending futures =
    fail_pending error items (erase id pending) (settle f (failed error) futures)

-- Is this number of a reader task that of the running task?
abbrev pub is_current : Option ℕ → ℕ → Bool
is_current none n = false
is_current (some m) n = m == n

-- The reader task is cancelled unless it is the running one, and the writer is closed.
unfoldable pub drop_effects : Option ℕ → Option ℕ → Option ℕ → List Effect
drop_effects current none none = []
drop_effects current none (some w) = closed_writer w ∷ []
drop_effects current (some t) none = if is_current current t then [] else cancelled_reader t ∷ []
drop_effects current (some t) (some w) =
    if is_current current t then closed_writer w ∷ [] else cancelled_reader t ∷ closed_writer w ∷ []

-- `_drop_transport(error)`, run by the reader task `current` or by another task. All changes of the
-- state stand before its first `await`.
unfoldable pub drop_transport : Option ℕ → Exception → SocketConnection → SocketConnection
unfolding fail_pending drop_effects
drop_transport current error s =
    let (pending, futures) = fail_pending error s.pending s.pending s.futures in
    record s {
      reader_task = none;
      reader = none;
      writer = none;
      connected_event = false;
      pending = pending;
      futures = futures;
      effects = s.effects ++ drop_effects current s.reader_task s.writer;
    }

-- `_next_request_id`, at the random part that `uuid4` gives
unfoldable pub next_request_id : String → SocketConnection → String × SocketConnection
unfolding request_id
next_request_id random s =
    let counter = s.request_counter + 1 in
    (request_id counter random, record s { request_counter = counter })
