-- ===== src/Tests/Polling.antt =====
-- A server that reads from one client, with a bound of 4 bytes and a recovery after 2 seconds.
use macpony.Prelude.{◌≡◌, refl, true, false, none, some, List, [], ◌∷◌, map, arith, All, length}
use macpony.Json.{Json}
use macpony.Lines.Split.{records}
use macpony.Protocol.{encode_line}
use macpony.Server.Framing as Framing
use macpony.Server.Framing.{read_bytes}
use macpony.Server.Framing.Records.{IsOff}
use macpony.Server.Wire.{accepted, decode}
use macpony.Server.Requests.{request_of}
use macpony.Server.Polling.{
  ReadState, ReadEvent, starts, polls, answers, stops, asks, loaded, callback, run,
  poll_connections,
}
use macpony.Server.Polling.Requests.{IsSendable, session-accepts}
use macpony.Tests.Calls.{in_flight}
use macpony.Tests.Server.{braces, reads_request, has_id, has_method, fits_limit}
use macpony.Protocol.Framing.{NoNewline}
use macpony.Constants.{max_line_bytes}
use macpony.Server.Polling.Tags.{IsValid, run-loaded-IsValid}
use macpony.Server.Polling.Stale.{changed, callback-retired}
use macpony.Server.Polling.Churn.{visits, visits-pile_up}
use macpony.Server.Polling.Socket.{
  Session, SessionEvent, fires, arrives, sole, asked, sent_bytes, admit, session_lines,
}
use macpony.Server.Polling.Session.{session-decodes, recovery-keeps_buffer}

-- A client comes, sends a byte, is silent, and leaves.
abbrev day : List ReadEvent
day =
    starts true (sole 0)
    ∷ polls 1 1 (sole 1) (sole 1)
    ∷ answers 65 1 1 (sole 2)
    ∷ polls 1 9 (sole 9) (sole 9)
    ∷ answers 10 3 1 (sole 9)
    ∷ polls 0 10 (sole 10) (sole 10)
    ∷ stops
    ∷ []

run-loaded-IsValid_example : IsValid 4 (run 4 2 day loaded)
run-loaded-IsValid_example = run-loaded-IsValid 4 2 day

-- Tag 1 is open, half a record is in the buffer.
abbrev serving : ReadState
serving = record {
  is_listening = true;
  pending = 1 ∷ [];
  recovery = none;
  started_at = some 0;
  next_tag = 1;
  connection_count = 1;
  input = record { buffer = 65 ∷ []; dropping = false };
}

serving-IsValid : IsValid 4 serving
serving-IsValid = record {
  shape = tt;
  below = (omega arith, tt);
  clock = tt;
  bounded = (omega arith, λ h. absurd (ground (arith, h)));
  quiet = λ h. absurd (ground (arith, h));
}

-- The client leaves, another one comes, and the first one's read is answered late.
callback-retired_example :
    let s = run 4 2 (polls 0 1 (sole 1) (sole 1) ∷ polls 1 2 (sole 2) (sole 2) ∷ []) serving in
    callback 4 66 1 1 (sole 3) s ≡ ([], s)
callback-retired_example =
    callback-retired 4 2 1 serving (polls 0 1 (sole 1) (sole 1)) (polls 1 2 (sole 2) (sole 2) ∷ [])
      serving-IsValid (omega arith) (changed refl (λ e. omega (arith, e))) (tt, tt) 66 1 (sole 3)

abbrev idle_server : ReadState
idle_server = record loaded { is_listening = true }

-- Three records, the second too long; the timer fires in between, once after a silence.
abbrev talk : List SessionEvent
talk =
    arrives 65 1
    ∷ fires 2 2 2
    ∷ arrives 10 2
    ∷ fires 9 9 9
    ∷ arrives 66 9
    ∷ arrives 67 9
    ∷ arrives 68 9
    ∷ arrives 69 9
    ∷ arrives 70 9
    ∷ arrives 71 9
    ∷ arrives 10 10
    ∷ arrives 72 10
    ∷ arrives 10 10
    ∷ []

talk-IsOff : All (IsOff 4) (records [] (sent_bytes talk))
unfolding records
talk-IsOff = (λ e. omega (arith, e), (λ e. omega (arith, e), (λ e. omega (arith, e), tt)))

-- A second client has come; the first one's read, tag 1, is in its socket.
abbrev crowded_server : ReadState
crowded_server = record idle_server { next_tag = 1; connection_count = 2 }

session-decodes_example :
    let lines = session_lines 4 2 (arrives 123 1 ∷ talk) (admit 2 1 1 (1 ∷ []) crowded_server) in
    (lines ≡ (read_bytes 4 (sent_bytes talk) Framing.start).0)
    × (lines ≡ (65 ∷ 10 ∷ []) ∷ (72 ∷ 10 ∷ []) ∷ [])
unfolding records
session-decodes_example =
    session-decodes 4 2 1 1 (1 ∷ []) crowded_server (arrives 123 1 ∷ talk) refl
      (λ e. omega (arith, e)) (omega arith, tt) talk-IsOff

-- Another client sends two bytes behind the byte of the one that left.
recovery-keeps_buffer_example :
    let (fx, s') = poll_connections 2 1 5 (sole 5) (sole 5) serving in
    (fx ≡ asks 2 ∷ [])
    × (session_lines 4 2
          (arrives 66 5 ∷ fires 6 6 6 ∷ arrives 10 6 ∷ [])
          (record { queue = asked fx; state = s' })
        ≡ (65 ∷ 66 ∷ 10 ∷ []) ∷ [])
unfolding read_bytes
recovery-keeps_buffer_example =
    recovery-keeps_buffer 4 2 5 5 1 0 serving (arrives 66 5 ∷ fires 6 6 6 ∷ arrives 10 6 ∷ []) refl
      refl refl refl refl (omega arith) (omega arith)

-- The client of `serving` waits for a byte, and another one comes and leaves twice.
abbrev staying : Session
staying = record { queue = 1 ∷ []; state = serving }

-- Its next two bytes are lost.
visits-pile_up_example :
    let c = visits 2 (6 ∷ 4 ∷ []) staying in
    (length c.queue ≡ 3)
    × (length c.state.pending ≡ 1)
    × (session_lines 4 2 (arrives 66 7 ∷ arrives 67 7 ∷ arrives 68 8 ∷ arrives 10 8 ∷ []) c
        ≡ (68 ∷ 10 ∷ []) ∷ [])
unfolding read_bytes
visits-pile_up_example =
    visits-pile_up 4 2 6 (4 ∷ []) staying
      (arrives 66 7 ∷ arrives 67 7 ∷ arrives 68 8 ∷ arrives 10 8 ∷ [])
      (record { listens = refl; counted = refl; below = (omega arith, tt) })

braces-NoNewline : (j : Json) → NoNewline (braces j)
braces-NoNewline j = (λ e. ground arith, (λ e. ground arith, tt))

request-IsSendable : IsSendable braces reads_request in_flight.request
request-IsSendable = record { id = has_id; method = has_method; text = refl; size = fits_limit }

-- One request, `{}` and a newline.
abbrev call_bytes : List SessionEvent
call_bytes = arrives 123 1 ∷ fires 4 4 4 ∷ arrives 125 4 ∷ arrives 10 5 ∷ []

session-accepts_example :
    map
      (decode reads_request)
      (session_lines max_line_bytes 2 call_bytes (admit 2 1 1 [] idle_server))
    ≡ accepted (request_of in_flight.request) ∷ []
unfolding encode_line
session-accepts_example =
    session-accepts braces reads_request (in_flight.request ∷ []) 2 1 1 idle_server call_bytes
      braces-NoNewline (request-IsSendable, tt) refl (λ e. omega (arith, e)) refl
