-- ===== src/Server/EventBus.antt =====
-- hammerspoon/macapi/eventbus.lua: the queue of events, their numbers, and the coalescing of events
-- that come often. The names of events do not end in `:timer`, so that the table `pending` is two.
pub mod Ascending
pub mod Sequence
use macpony.Prelude.{
  ℕ, ◌+◌, String, Bool, true, false, Option, none, some, List, [], ◌∷◌, ◌++◌, length, leb,
  if◌then◌else◌, str_eq,
}
use macpony.Prelude.Dict.{Dict, insert, erase, lookup, is_member}
use macpony.Prelude.Int.{pos}
use macpony.Json.{Float, Json, bool, int, float, str, arr, obj, nil, Fields, empty, field}
use macpony.Server.Subscriptions.{matches, include_data}

-- `config.max_queue_size`
abbrev pub max_queue_size : ℕ
max_queue_size = 256

-- An event envelope.
pub record Message : Type 0 where
  pub seq : ℕ
  pub event : String
  pub timestamp : Float
  pub payload : Json

-- `queue`, `sequence`, and `pending`: the payloads and the names whose timers run.
pub record Bus : Type 0 where
  pub queue : List Message
  pub sequence : ℕ
  pub pending : Dict Json
  pub timers : List String

abbrev pub start : Bus
start = record { queue = []; sequence = 0; pending = []; timers = [] }

-- `protocol.empty_object()`
abbrev pub empty_object : Json
empty_object = obj (field "__macapi_empty_object__" (bool true) empty)

abbrev pub object_payload : Json → Json
object_payload (obj empty) = empty_object
object_payload (obj fs) = obj fs
object_payload (arr nil) = empty_object
object_payload (arr js) = arr js
object_payload _ = empty_object

-- `table.remove(queue, 1)`
abbrev pub without_first : List Message → List Message
without_first [] = []
without_first (m ∷ q) = q

unfoldable pub enqueue : Message → List Message → List Message
enqueue m q = (if leb max_queue_size (length q) then without_first q else q) ++ m ∷ []

-- `flush`: what is sent, and what is left. The argument says for each message whether `send_message`
-- returns true now.
unfoldable pub flush : (Message → Bool) → List Message → List Message × List Message
flush sends [] = ([], [])
flush sends (m ∷ q) =
    let (sent, left) = flush sends q in if sends m then (m ∷ sent, left) else ([], m ∷ q)

-- A new message, and a flush: what is sent, and the bus.
unfoldable pub post : (Message → Bool) → Float → String → Json → Bus → List Message × Bus
unfolding enqueue flush
post sends now name payload bus =
    let seq = bus.sequence + 1 in
    let message : Message = record {
      seq = seq;
      event = name;
      timestamp = now;
      payload = payload;
    } in
    let (sent, left) = flush sends (enqueue message bus.queue) in
    (sent, record bus { queue = left; sequence = seq })

-- `pending[name] = payload`, and a timer if none runs.
unfoldable pub coalesce : String → Json → Bus → Bus
coalesce name payload bus = record bus {
  pending = insert name payload bus.pending;
  timers = if is_member name bus.timers then bus.timers else name ∷ bus.timers;
}

-- `M.emit`: what it returns, what is sent, and the bus.
unfoldable pub emit :
    Dict Bool → (Message → Bool) → Float → String → Json → Bool → Bus → Bool × List Message × Bus
unfolding matches include_data post coalesce
emit registry sends now name payload_of is_frequent bus =
    if matches name registry
    then (let payload =
          if include_data name registry then object_payload payload_of else empty_object in
        if is_frequent
        then (true, [], coalesce name payload bus)
        else (let (sent, bus') = post sends now name payload bus in (true, sent, bus')))
    else (false, [], bus)

abbrev pub without_name : String → List String → List String
without_name name [] = []
without_name name (n ∷ ns) = if str_eq n name then ns else n ∷ without_name name ns

-- The callback of the timer of a name.
unfoldable pub timer_fires : (Message → Bool) → Float → String → Bus → List Message × Bus
unfolding post
timer_fires sends now name bus =
    let bus' : Bus = record bus {
      pending = erase name bus.pending;
      timers = without_name name bus.timers;
    } in
    elim (lookup name bus.pending) [
      | none ↦ ([], bus')
      | some latest ↦ post sends now name latest bus'
    ]

-- `M.client_disconnected`, apart from the subscriptions.
unfoldable pub client_disconnected : Bus → Bus
client_disconnected bus = record bus { queue = []; pending = []; timers = [] }

-- `M.flush`
unfoldable pub flush_bus : (Message → Bool) → Bus → List Message × Bus
unfolding flush
flush_bus sends bus =
    let (sent, left) = flush sends bus.queue in (sent, record bus { queue = left })

-- The table that is encoded for a message.
unfoldable pub event_fields : Message → Fields
event_fields m = field "v" (int (pos 1)) (
    field "type" (str "event") (
      field "seq" (int (pos m.seq)) (
        field "event" (str m.event)
          (field "timestamp" (float m.timestamp) (field "data" m.payload empty)))))
