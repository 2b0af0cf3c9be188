-- ===== src/Client/Stream.antt =====
-- From the bytes of the socket to the queue of the events client.
use macpony.Prelude.{ℕ, none, some, List, [], ◌∷◌, ◌++◌}
use macpony.Errors.{returned, raised}
use macpony.Pydantic.{Validator}
use macpony.Events.{MacEvent, parse_event}
use macpony.Lines.{start, iter_lines}
use macpony.Protocol.{WireMessage, event, Loads, decode_message}
use macpony.EventsClient.{EventsClient}
use macpony.Connection.{read_records}
use macpony.Client.{MacApi, run_piece}
use macpony.EventsClient

-- The reader task over a stream, with the callbacks that it makes.
unfoldable pub receive_stream : (List ℕ → Loads) → Validator → ℕ → List (List ℕ) → MacApi → MacApi
unfolding run_piece
receive_stream loads validate limit chunks =
    run_piece (λ s. (read_records loads validate (iter_lines limit chunks start).0 s).1)

-- The events that records stand for: the records that cannot be decoded, that are no events, or
-- whose data is refused are left out.
abbrev pub message_event : Validator → WireMessage → List MacEvent
message_event validate (event raw) = elim (parse_event validate raw) [ none ↦ [] | some e ↦ e ∷ [] ]
message_event validate _ = []

abbrev pub record_event : (List ℕ → Loads) → Validator → List ℕ → List MacEvent
record_event loads validate line = elim (decode_message loads validate line) [
  | returned m ↦ message_event validate m
  | raised e ↦ []
]

unfoldable pub stream_events : (List ℕ → Loads) → Validator → List (List ℕ) → List MacEvent
stream_events loads validate [] = []
stream_events loads validate (line ∷ lines) =
    record_event loads validate line ++ stream_events loads validate lines
