-- ===== src/Server/Requests.antt =====
-- The server reads what the client encodes.
use macpony.Prelude.{
  ℕ, ◌≤◌, ◌≡◌, refl, ap, ◌≢◌, Option, some, List, [], ◌∷◌, ◌++◌, arith, length, eq_iff,
}
use macpony.Constants.{newline_byte, max_line_bytes}
use macpony.Json.{Json, obj, get, is_text}
use macpony.Protocol.{RequestEnvelope, dump_request, encode_line}
use macpony.Server.Wire.{
  Request, accepted, decode, strip_newline, validate_payload, validate_request,
}

-- The request of the client as the server has it.
abbrev pub request_of : RequestEnvelope → Request
request_of r = record { id = r.id; method = r.method; params = obj r.params }

strip_newline-append : (text : List ℕ) → strip_newline (text ++ newline_byte ∷ []) ≡ text
unfolding strip_newline
strip_newline-append [] = refl
strip_newline-append (b ∷ []) = refl
strip_newline-append (b ∷ c ∷ text) = ap (λ (l : List ℕ). b ∷ l) (strip_newline-append (c ∷ text))

validate_request-dump_request :
    (r : RequestEnvelope)
    → r.id ≢ ""
    → r.method ≢ ""
    → validate_request (dump_request r) ≡ accepted (request_of r)
unfolding validate_request dump_request get is_text
validate_request-dump_request r h k = ground (arith, eq_iff r.id "", eq_iff r.method "")

-- The server accepts every request that the client encodes: within the size limit, with an id and a
-- method that are not empty, it decodes the line to the client's id, method and parameters, if its
-- JSON decoder reads what the client's encoder wrote.
pub decode-encode_line :
    (dumps : Json → List ℕ) (hs_decode : List ℕ → Option Json) (r : RequestEnvelope)
    → r.id ≢ ""
    → r.method ≢ ""
    → hs_decode (dumps (obj (dump_request r))) ≡ some (obj (dump_request r))
    → length (encode_line dumps r) ≤ max_line_bytes
    → decode hs_decode (encode_line dumps r) ≡ accepted (request_of r)
unfolding decode encode_line validate_payload
decode-encode_line dumps hs_decode r h k e short = ground (
  arith,
  strip_newline-append (dumps (obj (dump_request r))),
  validate_request-dump_request r h k,
)
