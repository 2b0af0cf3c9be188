-- ===== src/Events/Table.antt =====
-- The table `_EVENT_TYPES` and the `Literal` names of the event classes agree.
use macpony.Prelude.{
  Bool, true, false, if◌then◌else◌, str_eq, eq_iff, Bool-cases, ap, ◌∙◌, all-All, All-map, String,
  ◌≡◌, refl, ◌≢◌, some, [], ◌∷◌, All, inl, inr, ◌⊎◌, ◌↔◌, arith,
}
use mathlib.Core.Path.{subst}
use macpony.Prelude.Dict.{lookup, lookup-All}
use macpony.Pydantic.{literal_str, str_type}
use macpony.Events.{
  EventClass, event_name, event_types, application_activated_event, application_launched_event,
  application_terminated_event, application_hidden_event, application_unhidden_event,
  window_created_event, window_destroyed_event, window_focused_event, window_moved_event,
  window_resized_event, window_minimized_event, window_unminimized_event,
  window_fullscreen_changed_event, screen_connected_event, screen_disconnected_event,
  screen_changed_event, system_will_sleep_event, system_did_wake_event,
  system_screens_did_sleep_event, system_screens_did_wake_event, system_session_locked_event,
  system_session_unlocked_event, clipboard_changed_event, wifi_changed_event,
  audio_output_changed_event, audio_input_changed_event, audio_device_changed_event,
  audio_volume_changed_event, audio_mute_changed_event, power_source_changed_event,
  power_battery_changed_event, unknown_event,
}

-- The name that an event class carries.
unfoldable pub name_of : EventClass → String
name_of application_activated_event = "application.activated"
name_of application_launched_event = "application.launched"
name_of application_terminated_event = "application.terminated"
name_of application_hidden_event = "application.hidden"
name_of application_unhidden_event = "application.unhidden"
name_of window_created_event = "window.created"
name_of window_destroyed_event = "window.destroyed"
name_of window_focused_event = "window.focused"
name_of window_moved_event = "window.moved"
name_of window_resized_event = "window.resized"
name_of window_minimized_event = "window.minimized"
name_of window_unminimized_event = "window.unminimized"
name_of window_fullscreen_changed_event = "window.fullscreenChanged"
name_of screen_connected_event = "screen.connected"
name_of screen_disconnected_event = "screen.disconnected"
name_of screen_changed_event = "screen.changed"
name_of system_will_sleep_event = "system.willSleep"
name_of system_did_wake_event = "system.didWake"
name_of system_screens_did_sleep_event = "system.screensDidSleep"
name_of system_screens_did_wake_event = "system.screensDidWake"
name_of system_session_locked_event = "system.sessionLocked"
name_of system_session_unlocked_event = "system.sessionUnlocked"
name_of clipboard_changed_event = "clipboard.changed"
name_of wifi_changed_event = "wifi.changed"
name_of audio_output_changed_event = "audio.outputChanged"
name_of audio_input_changed_event = "audio.inputChanged"
name_of audio_device_changed_event = "audio.deviceChanged"
name_of audio_volume_changed_event = "audio.volumeChanged"
name_of audio_mute_changed_event = "audio.muteChanged"
name_of power_source_changed_event = "power.sourceChanged"
name_of power_battery_changed_event = "power.batteryChanged"
name_of unknown_event = ""

pub event_name-literal :
    (c : EventClass)
    → ((event_name c ≡ literal_str (name_of c ∷ [])) × (c ≢ unknown_event))
      ⊎ (event_name c ≡ str_type)
unfolding event_name name_of
event_name-literal unknown_event = inr refl
event_name-literal _ = inl (refl, ground arith)

lookup-name_of : (c : EventClass) → c ≢ unknown_event → lookup (name_of c) event_types ≡ some c
unfolding lookup name_of
lookup-name_of unknown_event h = absurd (h refl)
lookup-name_of _ h = refl

is_known : EventClass → Bool
is_known unknown_event = false
is_known _ = true

known-literal : (c : EventClass) → is_known c ≡ true → event_name c ≡ literal_str (name_of c ∷ [])
unfolding is_known event_name name_of
known-literal unknown_event h = absurd (cc)
known-literal _ h = refl

-- The entry leads from a name to the class that carries it.
is_named : String × EventClass → Bool
is_named (k, c) = if is_known c then str_eq (name_of c) k else false

is_named-literal :
    (e : String × EventClass) → is_named e ≡ true → event_name e.1 ≡ literal_str (e.0 ∷ [])
unfolding is_named
is_named-literal (k, c) h = elim (Bool-cases (is_known c)) [
  | inl e ↦
      let same : name_of c ≡ k = (eq_iff (name_of c) k).0 (ground (arith, e, h)) in
      known-literal c e ∙ ap (λ n. literal_str (n ∷ [])) same
  | inr e ↦ absurd (ground (arith, e, h))
]

event_types-literals : All (λ e. event_name e.1 ≡ literal_str (e.0 ∷ [])) event_types
unfolding is_named is_known name_of
event_types-literals =
    All-map (λ e. is_named e ≡ true) (λ e. event_name e.1 ≡ literal_str (e.0 ∷ [])) is_named-literal
      event_types (all-All is_named event_types refl)

event_name→lookup :
    (c : EventClass) (k : String)
    → event_name c ≡ literal_str (k ∷ [])
    → lookup k event_types ≡ some c
event_name→lookup c k h = elim (event_name-literal c) [
  | inl (e, known) ↦
      let name : name_of c ≡ k = cc in
      subst (λ n. lookup n event_types ≡ some c) name (lookup-name_of c known)
  | inr e ↦ absurd (cc)
]

-- The table leads from a name to an event class exactly if the `Literal` of the class is that
-- name: no class is missing, and none is listed under another name than its own.
event_types-agree :
    (c : EventClass) (k : String)
    → (lookup k event_types ≡ some c) ↔ (event_name c ≡ literal_str (k ∷ []))
event_types-agree c k = (
  lookup-All (λ n d. event_name d ≡ literal_str (n ∷ [])) k c event_types event_types-literals,
  event_name→lookup c k,
)
