-- ===== src/Protocol/Refusals.antt =====
-- What `decode_message` refuses.
use macpony.Prelude.{
  ℕ, ◌≤◌, String, ◌≡◌, refl, ◌⊎◌, inl, inr, true, false, Option, some, List, arith, length,
  Option-cases, Bool-cases, eq_iff,
}
use macpony.Constants.{max_line_bytes}
use macpony.Errors.{
  Exception, Reason, returned, raised, protocol, builtin, recursion_error, value_error,
}
use macpony.Json.{Json, null, bool, int, float, str, arr, obj, Fields, get, is_text}
use macpony.Pydantic.{◌>>=◌, model, Validator, Decls}
use macpony.Protocol.{
  response_envelope, raw_event, protocol_error_envelope, WireMessage, response, event,
  protocol_error, Loads, loaded, decode_error, too_deep, too_many_digits, read_response, read_event,
  read_protocol_error, validated, as_fields, normalize_data, decode_typed, decode_payload,
  decode_message,
}

decode_payload-raised :
    (validate : Validator) (j : Json) (e : Exception)
    → decode_payload validate j ≡ raised e
    → (r : Reason) × (e ≡ protocol r)
unfolding decode_payload validated
decode_payload-raised validate (obj fs) e h = ground arith
decode_payload-raised validate _ e h = ground arith

-- An exception that leaves `decode_message` is a `ProtocolError`, but for two exceptions of
-- `json.loads` that it does not catch: the `RecursionError` of a text that is nested too deep, and
-- the plain `ValueError` of a text with an integer of too many digits.
pub decode_message-raised :
    (validate : Validator) (loads : List ℕ → Loads) (line : List ℕ) (e : Exception)
    → decode_message loads validate line ≡ raised e
    → ((r : Reason) × (e ≡ protocol r))
      ⊎ ((loads line ≡ too_deep) × (e ≡ builtin recursion_error))
      ⊎ ((loads line ≡ too_many_digits) × (e ≡ builtin value_error))
unfolding decode_message validated
decode_message-raised validate loads line e h = ground arith

-- The text that `type` must have for each kind of message.
abbrev pub type_of : WireMessage → String
type_of (response m) = "response"
type_of (event m) = "event"
type_of (protocol_error m) = "protocol_error"

is_text-eq : (t : String) (j : Json) → is_text t j ≡ true → j ≡ str t
unfolding is_text
is_text-eq t (str s) h = ground (arith, eq_iff s t)
is_text-eq t null h = cc
is_text-eq t (bool b) h = cc
is_text-eq t (int i) h = cc
is_text-eq t (float x) h = cc
is_text-eq t (arr xs) h = cc
is_text-eq t (obj fs) h = cc

-- Each reader makes one kind of message.
read-type :
    (fs : Fields) (m : WireMessage)
    → ((read_response fs ≡ some m) → type_of m ≡ "response")
      × ((read_event fs ≡ some m) → type_of m ≡ "event")
      × ((read_protocol_error fs ≡ some m) → type_of m ≡ "protocol_error")
unfolding read_response read_event read_protocol_error
read-type fs m = (λ h. ground arith, λ h. ground arith, λ h. ground arith)

validated-returned :
    (validate : Validator) (ds : Decls) (read : Fields → Option WireMessage) (name : String)
    (fs : Fields) (m : WireMessage)
    → validated validate ds read name fs ≡ returned m
    → (v : Fields) × (read v ≡ some m)
unfolding validated
validated-returned validate ds read name fs m h =
    elim (Option-cases (validate (model false false ds) (obj fs) >>= as_fields)) [
      | inl e ↦ ground arith
      | inr (v, e) ↦ (v, ground arith)
    ]

decode_typed-type :
    (validate : Validator) (j : Json) (fs : Fields) (m : WireMessage)
    → decode_typed validate j fs ≡ returned m
    → j ≡ str (type_of m)
unfolding decode_typed
decode_typed-type validate j fs m h = elim (Bool-cases (is_text "response" j)) [
  | inl a ↦
      let (v, e) =
        validated-returned validate response_envelope read_response "response" fs m (rw a at h) in
      ground (arith, is_text-eq "response" j a, (read-type v m).0 e)
  | inr a ↦ elim (Bool-cases (is_text "event" j)) [
    | inl b ↦
        let (v, e) =
          validated-returned validate raw_event read_event "event" (normalize_data fs) m
            (rw (a, b) at h) in
        ground (arith, is_text-eq "event" j b, (read-type v m).1 e)
    | inr b ↦ elim (Bool-cases (is_text "protocol_error" j)) [
      | inl c ↦
          let (v, e) =
            validated-returned validate protocol_error_envelope read_protocol_error "protocol_error"
              fs m (rw (a, b, c) at h) in
          ground (arith, is_text-eq "protocol_error" j c, (read-type v m).2 e)
      | inr c ↦ ground arith
    ]
  ]
]

decode_payload-type :
    (validate : Validator) (j : Json) (m : WireMessage)
    → decode_payload validate j ≡ returned m
    → (fs : Fields) × (j ≡ obj fs) × (get "type" fs ≡ some (str (type_of m)))
unfolding decode_payload
decode_payload-type validate (obj fs) m h = (
  fs,
  refl,
  elim (Option-cases (get "type" fs)) [
    | inl e ↦ ground (arith, decode_typed-type validate null fs m)
    | inr (j, e) ↦ ground (arith, decode_typed-type validate j fs m)
  ],
)
decode_payload-type validate _ m h = ground arith

Loads-cases :
    (l : Loads)
    → ((l ≡ decode_error) ⊎ (l ≡ too_deep) ⊎ (l ≡ too_many_digits)) ⊎ ((j : Json) × (l ≡ loaded j))
Loads-cases (loaded j) = inr (j, refl)
Loads-cases decode_error = inl (inl refl)
Loads-cases too_deep = inl (inr (inl refl))
Loads-cases too_many_digits = inl (inr (inr refl))

-- A record that decodes is within the size limit, is a JSON object, and has the `type` of the
-- message that it decodes to.
decode_message-type :
    (validate : Validator) (loads : List ℕ → Loads) (line : List ℕ) (m : WireMessage)
    → decode_message loads validate line ≡ returned m
    → (length line ≤ max_line_bytes)
      × ((fs : Fields) × (loads line ≡ loaded (obj fs)) × (get "type" fs ≡ some (str (type_of m))))
unfolding decode_message
decode_message-type validate loads line m h = elim (Loads-cases (loads line)) [
  | inl e ↦ ground arith
  | inr (j, e) ↦
      let (fs, o, t) = decode_payload-type validate j m (ground arith) in
      (ground arith, (fs, ground arith, t))
]
