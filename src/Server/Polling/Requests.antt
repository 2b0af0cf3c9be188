-- ===== src/Server/Polling/Requests.antt =====
-- The client's requests on their way through the reads of the server.
use macpony.Prelude.{
  ℕ, ◌≤◌, ◌≡◌, refl, ap, ◌∙◌, ◌≢◌, true, Option, some, List, [], ◌∷◌, map, arith, length, All,
  concat, keep_if,
}
use macpony.Constants.{max_line_bytes}
use macpony.Json.{Json, obj}
use macpony.Lines.Split.{records, fits}
use macpony.Protocol.{RequestEnvelope, dump_request, encode_line}
use macpony.Protocol.Framing.{NoNewline, records-encode_line}
use macpony.Server.Wire.{accepted, decode}
use macpony.Server.Framing.Records.{IsOff}
use macpony.Server.Requests.{request_of, decode-encode_line}
use macpony.Server.Polling.{ReadState}
use macpony.Server.Polling.Socket.{SessionEvent, sent_bytes, session_lines, admit}
use macpony.Server.Polling.Session.{session-decodes}

-- A request that the client may send: it fits in a record, and the server's JSON decoder reads what
-- the client's encoder writes of it.
pub record IsSendable (dumps : Json → List ℕ) (hs_decode : List ℕ → Option Json)
    (r : RequestEnvelope) : Type 0 where
  pub id : r.id ≢ ""
  pub method : r.method ≢ ""
  pub text : hs_decode (dumps (obj (dump_request r))) ≡ some (obj (dump_request r))
  pub size : length (encode_line dumps r) ≤ max_line_bytes

module _ (dumps : Json → List ℕ) (hs_decode : List ℕ → Option Json) where
  sendable-IsOff :
      (messages : List RequestEnvelope)
      → All (IsSendable dumps hs_decode) messages
      → All (IsOff max_line_bytes) (map (encode_line dumps) messages)
  sendable-IsOff [] h = tt
  sendable-IsOff (m ∷ ms) h = (λ e. absurd (omega (arith, h.0.size, e)), sendable-IsOff ms h.1)

  sendable-fits :
      (messages : List RequestEnvelope)
      → All (IsSendable dumps hs_decode) messages
      → keep_if (fits max_line_bytes) (map (encode_line dumps) messages)
        ≡ map (encode_line dumps) messages
  sendable-fits [] h = refl
  sendable-fits (m ∷ ms) h = ground (arith, h.0.size, sendable-fits ms h.1)

  sendable-accepted :
      (messages : List RequestEnvelope)
      → All (IsSendable dumps hs_decode) messages
      → map (decode hs_decode) (map (encode_line dumps) messages)
        ≡ map (λ r. accepted (request_of r)) messages
  sendable-accepted [] h = refl
  sendable-accepted (m ∷ ms) h =
      let rest = sendable-accepted ms h.1 in
      let s = h.0 in
      rw (decode-encode_line dumps hs_decode m s.id s.method s.text s.size, rest) refl

-- The server accepts exactly the requests that its only client encodes, in their order, in every
-- interleaving of their bytes with the server's timer: if the timer finds the client alone, where
-- another number of clients was known, the client's socket holds no earlier read, the texts of
-- `json.dumps` hold no newline, and each request is not empty, within the size limit and read back
-- by the server's decoder.
pub session-accepts :
    (dumps : Json → List ℕ) (hs_decode : List ℕ → Option Json) (messages : List RequestEnvelope)
    (interval now now' : ℕ) (s : ReadState) (events : List SessionEvent)
    → ((j : Json) → NoNewline (dumps j))
    → All (IsSendable dumps hs_decode) messages
    → s.is_listening ≡ true
    → s.connection_count ≢ 1
    → sent_bytes events ≡ concat (map (encode_line dumps) messages)
    → map
        (decode hs_decode)
        (session_lines max_line_bytes interval events (admit interval now now' [] s))
      ≡ map (λ r. accepted (request_of r)) messages
session-accepts dumps hs_decode messages interval now now' s events clean sendable h k sent =
    let cut : records [] (sent_bytes events) ≡ map (encode_line dumps) messages =
      ap (records []) sent ∙ records-encode_line dumps clean messages in
    let off : All (IsOff max_line_bytes) (records [] (sent_bytes events)) =
      rw cut (sendable-IsOff dumps hs_decode messages sendable) in
    ap (map (decode hs_decode)) (
      (session-decodes max_line_bytes interval now now' [] s events h k tt off).1
      ∙ ap (keep_if (fits max_line_bytes)) cut
      ∙ sendable-fits dumps hs_decode messages sendable)
    ∙ sendable-accepted dumps hs_decode messages sendable
