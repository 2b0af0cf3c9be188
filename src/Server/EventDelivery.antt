-- ===== src/Server/EventDelivery.antt =====
-- The events that the server sends, in the queue of the client.
use macpony.Prelude.{ℕ, ◌≤◌, ◌≡◌, Option, some, List, [], ◌∷◌, ◌++◌, length}
use macpony.Prelude.Int.{pos}
use macpony.Constants.{newline_byte, max_line_bytes}
use macpony.Json.{obj, Fields}
use macpony.Pydantic.{Validator}
use macpony.Events.{MacEvent}
use macpony.Protocol.{event, Loads, loaded}
use macpony.Protocol.Framing.{NoNewline}
use macpony.Client.Stream.{message_event}
use macpony.Server.Wire.{encode}
use macpony.Server.EventBus.{Message, event_fields}
use macpony.EventsClient

-- The bytes of a message, whose text is given.
abbrev pub line_of : (Message → List ℕ) → Message → List ℕ
line_of text m = text m ++ newline_byte ∷ []

-- The events of the client for a message, whose data is given: one, unless pydantic refuses it.
abbrev pub events_of : Validator → (Message → Fields) → Message → List MacEvent
events_of validate data_of m = message_event validate (
    event
      (record { seq = pos m.seq; event = m.event; timestamp = m.timestamp; payload = data_of m }))

-- The server encodes the message to its text and a newline; that is within the size limit and has
-- no other newline; and the client's JSON decoder reads from it the fields of the message, with an
-- object for its data.
pub record IsReadable (loads : List ℕ → Loads) (hs_encode : Fields → Option (List ℕ))
    (text : Message → List ℕ) (data_of : Message → Fields) (m : Message) : Type 0 where
  pub encoded : encode hs_encode (event_fields m) ≡ some (line_of text m)
  pub one_line : NoNewline (text m)
  pub short : length (line_of text m) ≤ max_line_bytes
  pub parsed :
      loads (line_of text m) ≡ loaded (obj (event_fields (record m { payload = obj (data_of m) })))
