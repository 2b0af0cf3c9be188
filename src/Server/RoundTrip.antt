-- ===== src/Server/RoundTrip.antt =====
-- A call from the client's bytes to the server's handler and back.
use macpony.Prelude.{
  ℕ, ◌≤◌, ◌<◌, String, ◌≡◌, refl, sym, ap, ◌∙◌, ◌≢◌, Bool, true, Option, none, some, List, [], ◌∷◌,
  ◌++◌, arith, length, length-append, keep_if, All,
}
use mathlib.Core.Path.{subst}
use macpony.Constants.{newline_byte, max_line_bytes}
use macpony.Errors.{returned}
use macpony.Json.{Json, obj, Fields}
use macpony.Pydantic.{Annotation, Validator, IsPydantic}
use macpony.Protocol.{
  RequestEnvelope, ResponseEnvelope, response, Loads, loaded, decode_message, dump_request,
  encode_line,
}
use macpony.Prelude.Dict.{lookup}
use macpony.Lines.{start, iter_lines}
use macpony.Lines.Split.{records, received, fits, iter_lines-records}
use macpony.Protocol.Framing.{NoNewline, records-NoNewline}
use macpony.Connection.{
  SocketConnection, Call, settled, finish_call, handle_message, handle_record, read_records,
}
use macpony.Connection.Pieces.{IsValid}
use macpony.Connection.Correlation.{IsWaiting, finish_call-response}
use macpony.Server.Framing
use macpony.Server.Framing.{read_bytes}
use macpony.Server.Framing.Records.{IsOff, read_bytes-records}
use macpony.Server.Wire.{Refusal, encode, replace_marker}
use macpony.Server.Dispatch.{Methods, handle, serve}
use macpony.Server.Requests.{request_of, decode-encode_line}
use macpony.Server.Answers.{expected, handled, decode-answer, handle-answer_to}

records-line :
    (text : List ℕ)
    → NoNewline text
    → records [] (text ++ newline_byte ∷ []) ≡ (text ++ newline_byte ∷ []) ∷ []
records-line text h = records-NoNewline [] text [] h ∙ (unfold records in refl)

keep_if-line :
    (limit : ℕ) (line : List ℕ) → length line ≤ limit → keep_if (fits limit) (line ∷ []) ≡ line ∷ []
keep_if-line limit line h = ground arith

read_bytes-line :
    (limit : ℕ) (text : List ℕ)
    → NoNewline text
    → length (text ++ newline_byte ∷ []) ≤ limit
    → (read_bytes limit (text ++ newline_byte ∷ []) Framing.start).0
      ≡ (text ++ newline_byte ∷ []) ∷ []
read_bytes-line limit text h k =
    read_bytes-records limit (text ++ newline_byte ∷ [])
      (subst (All (IsOff limit)) (sym (records-line text h)) (λ e. absurd (omega arith), tt))
    ∙ ap (keep_if (fits limit)) (records-line text h)
    ∙ keep_if-line limit (text ++ newline_byte ∷ []) k

iter_lines-line :
    (limit : ℕ) (chunks : List (List ℕ)) (text : List ℕ)
    → NoNewline text
    → length (text ++ newline_byte ∷ []) ≤ limit
    → received chunks ≡ text ++ newline_byte ∷ []
    → (iter_lines limit chunks start).0 ≡ (text ++ newline_byte ∷ []) ∷ []
iter_lines-line limit chunks text h k e =
    iter_lines-records limit chunks
    ∙ ap (λ (bs : List ℕ). keep_if (fits limit) (records [] bs)) e
    ∙ ap (keep_if (fits limit)) (records-line text h)
    ∙ keep_if-line limit (text ++ newline_byte ∷ []) k

read_records-line :
    (validate : Validator) (loads : List ℕ → Loads) (line : List ℕ) (m : ResponseEnvelope)
    (s : SocketConnection)
    → decode_message loads validate line ≡ returned (response m)
    → read_records loads validate (line ∷ []) s ≡ (true, handle_message validate (response m) s)
unfolding read_records handle_record
read_records-line validate loads line m s h = ground arith

encode-text :
    (hs_encode : Fields → Option (List ℕ)) (message : Fields) (text : List ℕ)
    → hs_encode message ≡ some text
    → replace_marker 0 text ≡ text
    → encode hs_encode message ≡ some (text ++ newline_byte ∷ [])
unfolding encode
encode-text hs_encode message text h k = ground arith

module _ (validate : Validator) (p : IsPydantic validate) (loads : List ℕ → Loads)
    (dumps : Json → List ℕ) (hs_decode : List ℕ → Option Json)
    (hs_encode : Fields → Option (List ℕ)) (refusal : Refusal → String) (methods : Methods) where
  serve-encode_line :
      (r : RequestEnvelope)
      → r.id ≢ ""
      → r.method ≢ ""
      → hs_decode (dumps (obj (dump_request r))) ≡ some (obj (dump_request r))
      → length (encode_line dumps r) ≤ max_line_bytes
      → serve hs_decode refusal methods (encode_line dumps r) ≡ handle methods (request_of r)
  unfolding serve
  serve-encode_line r h k e short = ground (arith, decode-encode_line dumps hs_decode r h k e short)

  -- A call that waits is answered by the server's handler: the bytes of its request reach the server
  -- as one line, and once the bytes of the server's answer have come, in whatever chunks, the call
  -- ends as the handler of its method did, with the validated result, or with the exception for its
  -- error, for its crash or for a missing handler. The conditions are: the connection is in a valid
  -- state; the id and the method are not empty; each side's JSON decoder reads what the other side's
  -- encoder wrote; the texts hold no newline and no marker, and are within the size limit.
  pub call_roundtrip :
      (a : Annotation) (c : Call) (s : SocketConnection) (text : List ℕ) (chunks : List (List ℕ))
      → IsValid s
      → IsWaiting c.request.id c.future s
      → c.request.id ≢ ""
      → c.request.method ≢ ""
      → hs_decode (dumps (obj (dump_request c.request))) ≡ some (obj (dump_request c.request))
      → NoNewline (dumps (obj (dump_request c.request)))
      → length (encode_line dumps c.request) ≤ max_line_bytes
      → hs_encode (handle methods (request_of c.request)) ≡ some text
      → replace_marker 0 text ≡ text
      → loads (text ++ newline_byte ∷ []) ≡ loaded (obj (handle methods (request_of c.request)))
      → NoNewline text
      → length text < max_line_bytes
      → received chunks ≡ text ++ newline_byte ∷ []
      → let line = encode_line dumps c.request in
        let (goes_on, s') =
          read_records loads validate (iter_lines max_line_bytes chunks start).0 s in
        ((read_bytes max_line_bytes line Framing.start).0 ≡ line ∷ [])
        × (encode hs_encode (serve hs_decode refusal methods line) ≡ some (received chunks))
        × (goes_on ≡ true)
        × ((finish_call validate a settled c s').0
            ≡ some (expected validate a c.request.method (handled methods (request_of c.request))))
        × (lookup c.request.id s'.pending ≡ none)
  unfolding encode_line
  call_roundtrip a c s text chunks v w hi hm hd hn hl he hr ht tn tl hc =
      let short : length (text ++ newline_byte ∷ []) ≤ max_line_bytes =
        omega (arith, length-append text (newline_byte ∷ [])) in
      let r = request_of c.request in
      let (m, decoded, same_id, outcome) =
        decode-answer validate p loads (text ++ newline_byte ∷ []) short a r.id r.method
          (handled methods r)
          (ht ∙ ap (λ (fs : Fields). loaded (obj fs)) (handle-answer_to methods r)) in
      let done = finish_call-response validate a m c s v w same_id in
      let read =
        ap (λ (ls : List (List ℕ)). read_records loads validate ls s)
          (iter_lines-line max_line_bytes chunks text tn short hc)
        ∙ read_records-line validate loads (text ++ newline_byte ∷ []) m s decoded in
      (
        read_bytes-line max_line_bytes (dumps (obj (dump_request c.request))) hn
            (unfold encode_line in hl),
        encode-text hs_encode (serve hs_decode refusal methods (encode_line dumps c.request)) text
              (ap hs_encode (serve-encode_line c.request hi hm hd hl) ∙ he) hr
            ∙ ap some (sym hc),
        ap (λ (x : Bool × SocketConnection). x.0) read,
        ap (λ (x : Bool × SocketConnection). (finish_call validate a settled c x.1).0) read
            ∙ done.0
            ∙ ap some outcome,
        ap (λ (x : Bool × SocketConnection). lookup c.request.id x.1.pending) read ∙ done.1,
      )
