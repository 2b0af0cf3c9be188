-- ===== src/Events/Catalog.antt =====
-- The event catalog of the server, in hammerspoon/macapi/dispatcher.lua, and the table of the client.
use macpony.Prelude.{
  String, ◌≡◌, refl, true, some, List, [], ◌∷◌, All, all-All, All-map, Bool, false, Option, none,
  ◌↔◌,
}
use macpony.Prelude.Dict.{lookup, lookup-All, is_member, is_member-All}
use macpony.Events.{EventClass, event_types}

-- The local `event_names`.
abbrev pub server_events : List String
server_events =
    "application.launched" ∷ "application.terminated" ∷ "application.activated"
    ∷ "application.hidden" ∷ "application.unhidden" ∷ "window.created" ∷ "window.destroyed"
    ∷ "window.focused" ∷ "window.moved" ∷ "window.resized" ∷ "window.minimized"
    ∷ "window.unminimized" ∷ "window.fullscreenChanged" ∷ "screen.connected" ∷ "screen.disconnected"
    ∷ "screen.changed" ∷ "system.willSleep" ∷ "system.didWake" ∷ "system.screensDidSleep"
    ∷ "system.screensDidWake" ∷ "system.sessionLocked" ∷ "system.sessionUnlocked" ∷ "wifi.changed"
    ∷ "audio.outputChanged" ∷ "audio.inputChanged" ∷ "audio.volumeChanged" ∷ "audio.muteChanged"
    ∷ "audio.deviceChanged" ∷ "clipboard.changed" ∷ "power.sourceChanged" ∷ "power.batteryChanged"
    ∷ []

-- The client has a class for the event.
abbrev pub IsTyped : String → Type 0
IsTyped name = (c : EventClass) × (lookup name event_types ≡ some c)

is_class : Option EventClass → Bool
is_class none = false
is_class (some c) = true

is_class-some : (o : Option EventClass) → is_class o ≡ true → (c : EventClass) × (o ≡ some c)
unfolding is_class
is_class-some none h = absurd (cc)
is_class-some (some c) h = (c, refl)

pub server_events-IsTyped : All IsTyped server_events
unfolding is_class lookup
server_events-IsTyped =
    All-map (λ n. is_class (lookup n event_types) ≡ true) IsTyped
      (λ n h. is_class-some (lookup n event_types) h) server_events
      (all-All (λ n. is_class (lookup n event_types)) server_events refl)

event_types-served : All (λ e. is_member e.0 server_events ≡ true) event_types
unfolding is_member
event_types-served = all-All (λ e. is_member e.0 server_events) event_types refl

-- The server's catalog lists an event name exactly if the client's table has a class for it: every
-- event that the server announces is typed, and no class waits for an event that is never sent.
server_events-agree : (name : String) → (is_member name server_events ≡ true) ↔ IsTyped name
server_events-agree name = (
  is_member-All IsTyped name server_events server_events-IsTyped,
  λ t.
      lookup-All (λ n c. is_member n server_events ≡ true) name t.0 event_types event_types-served
        t.1,
)
