-- ===== src/Connection/Delivery.antt =====
-- From the bytes of the stream to the events that are delivered.
use macpony.Prelude.{
  ℕ, ◌≡◌, refl, ◌≢◌, ◌⊎◌, inl, inr, true, none, some, List, [], ◌∷◌, ◌++◌, append-nil, arith,
}
use macpony.Errors.{Exception, Outcome, returned, raised}
use macpony.Pydantic.{Validator}
use macpony.Protocol.{
  WireMessage, response, event, protocol_error, Loads, too_deep, too_many_digits, decode_message,
}
use macpony.Protocol.Refusals.{decode_message-raised}
use macpony.Events.{parse_event}
use macpony.Connection.{SocketConnection, Effect, delivered, handle_message, handle_record}

-- `json.loads` raises only exceptions that `decode_message` catches.
abbrev pub IsTame : Loads → Type 0
IsTame l = (l ≢ too_deep) × (l ≢ too_many_digits)

-- The events of a message and of a record: none unless it is an event that can be parsed.
abbrev pub message_events : Validator → WireMessage → List Effect
message_events validate (event raw) = elim (parse_event validate raw) [
  | none ↦ []
  | some e ↦ delivered e ∷ []
]
message_events validate _ = []

abbrev pub record_events : (List ℕ → Loads) → Validator → List ℕ → List Effect
record_events loads validate line = elim (decode_message loads validate line) [
  | returned m ↦ message_events validate m
  | raised e ↦ []
]

abbrev pub all_events : (List ℕ → Loads) → Validator → List (List ℕ) → List Effect
all_events loads validate [] = []
all_events loads validate (line ∷ lines) =
    record_events loads validate line ++ all_events loads validate lines

handle_message-effects :
    (validate : Validator) (m : WireMessage) (s : SocketConnection)
    → ((handle_message validate m s).effects ≡ s.effects ++ message_events validate m)
      × ((handle_message validate m s).state ≡ s.state)
      × ((handle_message validate m s).writer ≡ s.writer)
unfolding handle_message
handle_message-effects validate (response m) s = ground (arith, append-nil s.effects)
handle_message-effects validate (event raw) s = ground (arith, append-nil s.effects)
handle_message-effects validate (protocol_error m) s = ground (arith, append-nil s.effects)

pub Outcome-cases :
    {A : Type 0} (o : Outcome A) → ((a : A) × (o ≡ returned a)) ⊎ ((e : Exception) × (o ≡ raised e))
Outcome-cases (returned a) = inl (a, refl)
Outcome-cases (raised e) = inr (e, refl)

pub handle_record-effects :
    (loads : List ℕ → Loads) (validate : Validator) (line : List ℕ) (s : SocketConnection)
    → IsTame (loads line)
    → let (goes_on, s') = handle_record loads validate line s in
      (goes_on ≡ true)
      × (s'.effects ≡ s.effects ++ record_events loads validate line)
      × (s'.state ≡ s.state)
      × (s'.writer ≡ s.writer)
unfolding handle_record
handle_record-effects loads validate line s h =
    elim (Outcome-cases (decode_message loads validate line)) [
      | inl (m, e) ↦ ground (arith, handle_message-effects validate m s)
      | inr (e, q) ↦ elim (decode_message-raised validate loads line e q) [
        | inl (r, k) ↦ ground (arith, append-nil s.effects)
        | inr (inl (k, b)) ↦ absurd (h.0 k)
        | inr (inr (k, b)) ↦ absurd (h.1 k)
      ]
    ]
