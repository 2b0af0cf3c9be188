-- ===== src/Server/Capabilities.antt =====
-- `M.methods["system.capabilities"]` of hammerspoon/macapi/system.lua and `M.capabilities` of
-- dispatcher.lua, and what the client keeps of the answer.
pub mod Names
pub mod Handshake
use macpony.Prelude.{String, Bool, true, Option, none, some, List, [], ◌∷◌, if◌then◌else◌}
use macpony.Prelude.Dict.{Dict}
use macpony.Prelude.Int.{pos}
use macpony.Errors.{Outcome, returned, raised, protocol, invalid_result}
use macpony.Json.{Json, bool, int, str, arr, obj, Items, nil, cons, Fields, empty, field, get}
use macpony.Pydantic.{◌>>=◌}
use macpony.Protocol.{as_text, as_bool, as_int}
use macpony.Events.Catalog.{server_events}
use macpony.Client.{Capabilities}
use macpony.Server.Subscriptions.{is_before}

unfoldable pub insert_name : String → List String → List String
insert_name name [] = name ∷ []
insert_name name (n ∷ names) =
    if is_before name n then name ∷ n ∷ names else n ∷ insert_name name names

-- `table.sort(names)`
unfoldable pub sorted_names : List String → List String
unfolding insert_name
sorted_names [] = []
sorted_names (n ∷ names) = insert_name n (sorted_names names)

-- A list of texts as JSON.
abbrev pub texts : List String → Items
texts [] = nil
texts (s ∷ ss) = cons (str s) (texts ss)

-- `features`, with `config.dangerous_actions_enabled`
abbrev pub features : Bool → Fields
features dangerous = field "screenshots" (bool true) (
    field "input" (bool dangerous)
      (field "clipboard" (bool true) (field "dangerous_actions" (bool dangerous) empty)))

-- The result of the handler, with the names of the methods in the order that `pairs` gives.
unfoldable pub system_capabilities : Bool → List String → Fields
unfolding sorted_names
system_capabilities dangerous names = field "protocol_version" (int (pos 1)) (
    field "server_version" (str "0.1.0") (
      field "transport" (str "unix-domain-socket") (
        field "framing" (str "ndjson") (
          field "authentication" (str "none") (
            field "security" (str "filesystem-permissions") (
              field "single_client" (bool true) (
                field "methods" (arr (texts (sorted_names names))) (
                  field "events" (arr (texts server_events))
                    (field "features" (obj (features dangerous)) empty)))))))))

-- The list of texts, and the dict of Boolean values, that validated JSON is.
abbrev pub texts_of : Items → Option (List String)
texts_of nil = some []
texts_of (cons j js) = do s ← as_text j; ss ← texts_of js; some (s ∷ ss)

abbrev pub flags_of : Fields → Option (Dict Bool)
flags_of empty = some []
flags_of (field k j fs) = do b ← as_bool j; d ← flags_of fs; some ((k, b) ∷ d)

abbrev pub as_texts : Json → Option (List String)
as_texts (arr js) = texts_of js
as_texts _ = none

abbrev pub as_flags : Json → Option (Dict Bool)
as_flags (obj fs) = flags_of fs
as_flags _ = none

abbrev read_fields : Json → Option Capabilities
read_fields (obj fs) = do
  version ← get "protocol_version" fs >>= as_int
  server_version ← get "server_version" fs >>= as_text
  single_client ← get "single_client" fs >>= as_bool
  methods ← get "methods" fs >>= as_texts
  events ← get "events" fs >>= as_texts
  flags ← get "features" fs >>= as_flags
  some (record {
    version = version;
    server_version = server_version;
    single_client = single_client;
    methods = methods;
    events = events;
    features = flags;
  })
read_fields _ = none

-- The outcome of the client's call, with the validated object as an instance of `Capabilities`.
unfoldable pub capabilities_outcome : Outcome Json → Outcome Capabilities
capabilities_outcome (raised e) = raised e
capabilities_outcome (returned j) = elim (read_fields j) [
  | none ↦ raised (protocol invalid_result)
  | some c ↦ returned c
]
