-- ===== src/Tests/Queue.antt =====
-- Events and histories at which the theorems on `EventsClient` are applied.
use macpony.Prelude.{ℕ, ◌≤◌, ◌+◌, ◌≡◌, ◌⊎◌, true, false, List, [], ◌∷◌, ◌++◌, length, map}
use macpony.Json.{empty}
use macpony.Events.{MacEvent, clipboard_changed_event, system_did_wake_event, wifi_changed_event}
use macpony.EventsClient.{
  has_handler, on_event, raises_exception, item, EventsClient, initial, EventSubscription,
}
use macpony.EventsClient.Handlers.{
  Act, adds, removes, ends_task, act_all, count_for, act_all-handlers,
}
use macpony.EventsClient.Handlers
use macpony.EventsClient.Queue.{Use, receives, takes, use_all, arrivals, Omits, use_all-Omits}

abbrev pub copied : MacEvent
copied = record { event_class = clipboard_changed_event; fields = empty }

abbrev pub woke_up : MacEvent
woke_up = record { event_class = system_did_wake_event; fields = empty }

abbrev pub joined : MacEvent
joined = record { event_class = wifi_changed_event; fields = empty }

abbrev history : List Use
history =
    receives copied ∷ takes ∷ receives woke_up ∷ receives joined ∷ receives copied ∷ takes ∷ []

abbrev size : ℕ
size = 2

use_all-Omits_example :
    let (out, c) = use_all history ([], initial size) in
    (q : List MacEvent) × (c.queue ≡ map item q)
    × Omits (arrivals history) (out ++ q) c.dropped_events
    × (length (arrivals history) ≡ length out + length q + c.dropped_events)
    × ((size ≡ 0) ⊎ (length c.queue ≤ size))
use_all-Omits_example = use_all-Omits size history

abbrev three : List MacEvent
three = copied ∷ woke_up ∷ joined ∷ []

abbrev pub full_client : EventsClient
full_client = record {
  maxsize = 2;
  queue = item copied ∷ item woke_up ∷ [];
  handlers = [];
  handler_tasks = [];
  created_tasks = 0;
  dropped_events = 0;
  is_closed = false;
}

abbrev remembered : List EventSubscription
remembered =
    record { event = "wifi.changed"; include_data = true }
    ∷ record { event = "clipboard.changed"; include_data = false }
    ∷ []

-- Two handlers come, the first one leaves, and a task of the other one ends.
abbrev acts : List Act
acts =
    adds 5
    ∷ Handlers.receives copied
    ∷ adds 6
    ∷ Handlers.receives woke_up
    ∷ removes 5
    ∷ ends_task 2 raises_exception
    ∷ adds 6
    ∷ []

act_all-handlers_example :
    let c = act_all acts (initial size) in
    (has_handler 6 c.handlers ≡ true)
    × (count_for 6 (on_event joined c).handler_tasks ≡ count_for 6 c.handler_tasks + 1)
act_all-handlers_example = act_all-handlers size acts 6 joined
