-- ===== src/Tests/Server.antt =====
-- A server with one method, and the theorems on both sides of the protocol applied to it.
use macpony.Prelude.{
  ℕ, ◌≤◌, ◌≡◌, refl, ◌≢◌, String, true, none, Option, some, List, [], ◌∷◌, ◌++◌, arith, length,
  str_eq, if◌then◌else◌, eq_iff,
}
use macpony.Prelude.Dict.{lookup}
use macpony.Constants.{newline_byte, max_line_bytes}
use macpony.Json.{Json, arr, obj, nil, bool, str, Items, cons, Fields, field, empty}
use macpony.Pydantic.{any_value, list_of}
use macpony.Lines.{start, iter_lines}
use macpony.Lines.Split.{received}
use macpony.Protocol.{Loads, loaded, encode_line, dump_request}
use macpony.Protocol.Framing.{NoNewline}
use macpony.Connection.{settled, finish_call, read_records}
use macpony.EventsClient.{EventSubscription, named, dump_subscriptions}
use macpony.Server.Framing
use macpony.Server.Framing.{read_bytes}
use macpony.Server.Framing.Records.{read_bytes-swallows}
use macpony.Server.Wire.{Refusal, encode, replace_marker}
use macpony.Server.Dispatch.{returns, Methods, handle, serve}
use macpony.Server.Requests.{request_of}
use macpony.Server.Answers.{expected}
use macpony.Server.RoundTrip.{call_roundtrip}
use macpony.Server.Subscriptions.{matches}
use macpony.Server.Registry.{entries}
use macpony.Server.History.{Change, subscribes, unsubscribes, reconnects, at_start, change, changes}
use macpony.Server.Mirror.{changes_mirror}
use macpony.Tests.Calls.{in_flight, busy, busy-IsValid, busy-IsWaiting, call_id}
use macpony.Tests.Reference.{reference, reference-IsPydantic}

read_bytes-swallows_example :
    read_bytes 2 (65 ∷ 66 ∷ 10 ∷ 67 ∷ 10 ∷ 68 ∷ 10 ∷ []) Framing.start
    ≡ read_bytes 2 (68 ∷ 10 ∷ []) Framing.start
read_bytes-swallows_example =
    read_bytes-swallows 2 (65 ∷ 66 ∷ []) (67 ∷ []) (68 ∷ 10 ∷ [])
      (λ e. ground arith, (λ e. ground arith, tt)) (λ e. ground arith, tt) refl

-- Every value is written as an empty object, and every text is read as the one message there is.
abbrev pub braces : Json → List ℕ
braces j = 123 ∷ 125 ∷ []

abbrev pub reads_request : List ℕ → Option Json
reads_request text = some (obj (dump_request in_flight.request))

pub has_id : in_flight.request.id ≢ ""
has_id e = ground (arith, eq_iff call_id "")

pub has_method : in_flight.request.method ≢ ""
has_method e = ground (arith, eq_iff "apps.list" "")

pub fits_limit : length (encode_line braces in_flight.request) ≤ max_line_bytes
unfolding encode_line
fits_limit = omega arith

-- The server has one method, without applications.
abbrev methods : Methods
methods method = if str_eq method "apps.list" then some (λ params. returns (arr nil)) else none

abbrev writes_braces : Fields → Option (List ℕ)
writes_braces fs = some (123 ∷ 125 ∷ [])

abbrev reads_answer : List ℕ → Loads
reads_answer text = loaded (obj (handle methods (request_of in_flight.request)))

abbrev refuses : Refusal → String
refuses reason = "refused"

abbrev answer_chunks : List (List ℕ)
answer_chunks = (123 ∷ []) ∷ (125 ∷ 10 ∷ []) ∷ []

braces-NoNewline : NoNewline (123 ∷ 125 ∷ [])
braces-NoNewline = (λ e. ground arith, (λ e. ground arith, tt))

braces_kept : replace_marker 0 (123 ∷ 125 ∷ []) ≡ 123 ∷ 125 ∷ []
unfolding replace_marker
braces_kept = refl

chunks_received : received answer_chunks ≡ (123 ∷ 125 ∷ []) ++ newline_byte ∷ []
unfolding received
chunks_received = refl

call_roundtrip_example :
    let line = encode_line braces in_flight.request in
    let (goes_on, s') =
      read_records reads_answer reference (iter_lines max_line_bytes answer_chunks start).0 busy in
    ((read_bytes max_line_bytes line Framing.start).0 ≡ line ∷ [])
    × (encode writes_braces (serve reads_request refuses methods line)
        ≡ some (received answer_chunks))
    × (goes_on ≡ true)
    × ((finish_call reference (list_of any_value) settled in_flight s').0
        ≡ some (expected reference (list_of any_value) "apps.list" (some (returns (arr nil)))))
    × (lookup call_id s'.pending ≡ none)
call_roundtrip_example =
    call_roundtrip reference reference-IsPydantic reads_answer braces reads_request writes_braces
      refuses methods (list_of any_value) in_flight busy (123 ∷ 125 ∷ []) answer_chunks busy-IsValid
      busy-IsWaiting has_id has_method refl braces-NoNewline fits_limit refl braces_kept refl
      braces-NoNewline (omega arith) chunks_received

-- A list of subscriptions, read without a look at the names of the fields.
read_items : Items → Option (List EventSubscription)
read_items nil = some []
read_items (cons (obj (field e (str event) (field d (bool b) empty))) items) =
    elim (read_items items) [
      | none ↦ none
      | some ss ↦ some (record { event = event; include_data = b } ∷ ss)
    ]
read_items _ = none

reads_list : Json → Option (List EventSubscription)
unfolding read_items
reads_list (arr items) = read_items items
reads_list _ = none

reads_list-dump : (ss : List EventSubscription) → reads_list (arr (dump_subscriptions ss)) ≡ some ss
unfolding reads_list read_items dump_subscriptions
reads_list-dump [] = refl
reads_list-dump (s ∷ ss) = ground (arith, reads_list-dump ss)

abbrev asked : List Change
asked =
    subscribes (named "wifi.changed" ∷ named "clipboard.changed" ∷ [])
    ∷ reconnects
    ∷ unsubscribes (named "wifi.changed" ∷ [])
    ∷ []

changes_mirror_example :
    let b = changes reads_list asked at_start in
    (lookup "clipboard.changed" (entries b.remembered) ≡ lookup "clipboard.changed" b.registry)
    × (lookup "clipboard.changed" (change reads_list reconnects b).registry
        ≡ lookup "clipboard.changed" b.registry)
    × (matches "clipboard.changed" (change reads_list reconnects b).registry
        ≡ matches "clipboard.changed" b.registry)
changes_mirror_example = changes_mirror reads_list reads_list-dump asked "clipboard.changed"
