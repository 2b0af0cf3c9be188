-- ===== src/Tests/Events.antt =====
-- A server that emits events, and the theorems on the event bus applied to it.
use macpony.Prelude.{ℕ, ◌≤◌, Bool, true, false, some, Option, List, [], ◌∷◌, length}
use macpony.Prelude.Dict.{Dict}
use macpony.Prelude.Int.{pos}
use macpony.Json.{Float, finite, Fields, obj, arr, nil, empty}
use macpony.Protocol.{Loads, loaded}
use macpony.Server.EventBus.{Message, start, empty_object, event_fields}
use macpony.Server.EventBus.Ascending.{IsAscending}
use macpony.Server.EventBus.Sequence.{
  BusStep, emits, fires, flushes, leaves, bus_steps, bus_steps-IsAscending,
}

abbrev registry : Dict Bool
registry = ("system.*", true) ∷ ("window.moved", false) ∷ []

abbrev always : Message → Bool
always m = true

abbrev never : Message → Bool
never m = false

abbrev noon : Float
noon = finite (pos 5) 1

abbrev steps : List BusStep
steps =
    emits registry always noon "system.didWake" (arr nil) false
    ∷ emits registry never noon "system.willSleep" (arr nil) false
    ∷ emits registry always noon "window.moved" (arr nil) true
    ∷ fires never noon "window.moved"
    ∷ flushes always
    ∷ leaves
    ∷ []

bus_steps-IsAscending_example :
    let (sent, bus) = bus_steps steps start in
    (mid : ℕ) × IsAscending 0 sent mid
    × IsAscending mid bus.queue bus.sequence
    × (length bus.queue ≤ 256)
bus_steps-IsAscending_example = bus_steps-IsAscending steps

abbrev woke : Message
woke = record { seq = 1; event = "system.didWake"; timestamp = noon; payload = empty_object }

-- Every message is written as an empty object, and every line is read as the one message there is.
abbrev writes : Fields → Option (List ℕ)
writes fs = some (123 ∷ 125 ∷ [])

abbrev reads : List ℕ → Loads
reads line = loaded (obj (event_fields (record woke { payload = obj empty })))

abbrev text : Message → List ℕ
text m = 123 ∷ 125 ∷ []

abbrev no_data : Message → Fields
no_data m = empty

abbrev bytes : List (List ℕ)
bytes = (123 ∷ []) ∷ (125 ∷ 10 ∷ []) ∷ []
