-- ===== src/Events.antt =====
-- The typed events of python-client/src/hammerspoon_macapi/events.py: the annotated fields of the
-- data classes, one constructor for each event class, the table by name, and `parse_event`.
pub mod Parse
pub mod Catalog
pub mod Table
mod Data
pub use Data.*
use macpony.Prelude.{String, true, false, Option, none, some, List, [], ◌∷◌}
use macpony.Prelude.Dict.{Dict, lookup}
use macpony.Prelude.Int.{pos}
use macpony.Json.{Json, null, bool, int, float, str, arr, obj, nil, Fields, empty, field}
use macpony.Pydantic.{
  Annotation, any_value, str_type, int_type, float_type, bool_type, literal_str, literal_int,
  optional, list_of, dict_of, model, Decls, done, required, default, extend, Validator,
}
use macpony.Models.{instance_of, frame}
use macpony.Protocol.{RawEvent, as_fields}

-- The event classes; the last is `UnknownEvent`.
pub data EventClass : Type 0 where
  application_activated_event : EventClass
  application_launched_event : EventClass
  application_terminated_event : EventClass
  application_hidden_event : EventClass
  application_unhidden_event : EventClass
  window_created_event : EventClass
  window_destroyed_event : EventClass
  window_focused_event : EventClass
  window_moved_event : EventClass
  window_resized_event : EventClass
  window_minimized_event : EventClass
  window_unminimized_event : EventClass
  window_fullscreen_changed_event : EventClass
  screen_connected_event : EventClass
  screen_disconnected_event : EventClass
  screen_changed_event : EventClass
  system_will_sleep_event : EventClass
  system_did_wake_event : EventClass
  system_screens_did_sleep_event : EventClass
  system_screens_did_wake_event : EventClass
  system_session_locked_event : EventClass
  system_session_unlocked_event : EventClass
  clipboard_changed_event : EventClass
  wifi_changed_event : EventClass
  audio_output_changed_event : EventClass
  audio_input_changed_event : EventClass
  audio_device_changed_event : EventClass
  audio_volume_changed_event : EventClass
  audio_mute_changed_event : EventClass
  power_source_changed_event : EventClass
  power_battery_changed_event : EventClass
  unknown_event : EventClass

-- The annotation of `event`: a `Literal` with the class's name, or any text for `UnknownEvent`.
unfoldable pub event_name : EventClass → Annotation
event_name application_activated_event = literal_str ("application.activated" ∷ [])
event_name application_launched_event = literal_str ("application.launched" ∷ [])
event_name application_terminated_event = literal_str ("application.terminated" ∷ [])
event_name application_hidden_event = literal_str ("application.hidden" ∷ [])
event_name application_unhidden_event = literal_str ("application.unhidden" ∷ [])
event_name window_created_event = literal_str ("window.created" ∷ [])
event_name window_destroyed_event = literal_str ("window.destroyed" ∷ [])
event_name window_focused_event = literal_str ("window.focused" ∷ [])
event_name window_moved_event = literal_str ("window.moved" ∷ [])
event_name window_resized_event = literal_str ("window.resized" ∷ [])
event_name window_minimized_event = literal_str ("window.minimized" ∷ [])
event_name window_unminimized_event = literal_str ("window.unminimized" ∷ [])
event_name window_fullscreen_changed_event = literal_str ("window.fullscreenChanged" ∷ [])
event_name screen_connected_event = literal_str ("screen.connected" ∷ [])
event_name screen_disconnected_event = literal_str ("screen.disconnected" ∷ [])
event_name screen_changed_event = literal_str ("screen.changed" ∷ [])
event_name system_will_sleep_event = literal_str ("system.willSleep" ∷ [])
event_name system_did_wake_event = literal_str ("system.didWake" ∷ [])
event_name system_screens_did_sleep_event = literal_str ("system.screensDidSleep" ∷ [])
event_name system_screens_did_wake_event = literal_str ("system.screensDidWake" ∷ [])
event_name system_session_locked_event = literal_str ("system.sessionLocked" ∷ [])
event_name system_session_unlocked_event = literal_str ("system.sessionUnlocked" ∷ [])
event_name clipboard_changed_event = literal_str ("clipboard.changed" ∷ [])
event_name wifi_changed_event = literal_str ("wifi.changed" ∷ [])
event_name audio_output_changed_event = literal_str ("audio.outputChanged" ∷ [])
event_name audio_input_changed_event = literal_str ("audio.inputChanged" ∷ [])
event_name audio_device_changed_event = literal_str ("audio.deviceChanged" ∷ [])
event_name audio_volume_changed_event = literal_str ("audio.volumeChanged" ∷ [])
event_name audio_mute_changed_event = literal_str ("audio.muteChanged" ∷ [])
event_name power_source_changed_event = literal_str ("power.sourceChanged" ∷ [])
event_name power_battery_changed_event = literal_str ("power.batteryChanged" ∷ [])
event_name unknown_event = str_type

-- The declaration of `data`.
unfoldable pub event_data : EventClass → Decls
event_data application_activated_event = required "data" (instance_of application_data) done
event_data application_launched_event = required "data" (instance_of application_data) done
event_data application_terminated_event =
    required "data" (instance_of application_terminated_data) done
event_data application_hidden_event = required "data" (instance_of application_hidden_data) done
event_data application_unhidden_event = required "data" (instance_of application_unhidden_data) done
event_data window_created_event = required "data" (instance_of window_data) done
event_data window_destroyed_event = required "data" (instance_of window_data) done
event_data window_focused_event = required "data" (instance_of window_data) done
event_data window_moved_event = required "data" (instance_of window_data) done
event_data window_resized_event = required "data" (instance_of window_data) done
event_data window_minimized_event = required "data" (instance_of window_state_data) done
event_data window_unminimized_event = required "data" (instance_of window_state_data) done
event_data window_fullscreen_changed_event = required "data" (instance_of window_state_data) done
event_data screen_connected_event = required "data" (instance_of screen_data) done
event_data screen_disconnected_event = required "data" (instance_of screen_data) done
event_data screen_changed_event = required "data" (instance_of screen_changed_data) done
event_data system_will_sleep_event = required "data" (instance_of system_event_data) done
event_data system_did_wake_event = required "data" (instance_of system_event_data) done
event_data system_screens_did_sleep_event = required "data" (instance_of system_event_data) done
event_data system_screens_did_wake_event = required "data" (instance_of system_event_data) done
event_data system_session_locked_event = required "data" (instance_of system_event_data) done
event_data system_session_unlocked_event = required "data" (instance_of system_event_data) done
event_data clipboard_changed_event = required "data" (instance_of clipboard_changed_data) done
event_data wifi_changed_event = required "data" (instance_of wifi_changed_data) done
event_data audio_output_changed_event = required "data" (instance_of audio_changed_data) done
event_data audio_input_changed_event = required "data" (instance_of audio_changed_data) done
event_data audio_device_changed_event = required "data" (instance_of audio_changed_data) done
event_data audio_volume_changed_event = required "data" (instance_of audio_changed_data) done
event_data audio_mute_changed_event = required "data" (instance_of audio_changed_data) done
event_data power_source_changed_event = required "data" (instance_of power_source_changed_data) done
event_data power_battery_changed_event =
    required "data" (instance_of power_battery_changed_data) done
event_data unknown_event = default "data" (dict_of any_value) (obj empty) done

-- The fields of an event class.
unfoldable pub class_decls : EventClass → Decls
unfolding event_name event_data
class_decls c = extend (event_base (event_name c)) (event_data c)

-- `_EVENT_TYPES`
abbrev pub event_types : Dict EventClass
event_types =
    ("application.activated", application_activated_event)
    ∷ ("application.launched", application_launched_event)
    ∷ ("application.terminated", application_terminated_event)
    ∷ ("application.hidden", application_hidden_event)
    ∷ ("application.unhidden", application_unhidden_event)
    ∷ ("window.created", window_created_event)
    ∷ ("window.destroyed", window_destroyed_event)
    ∷ ("window.focused", window_focused_event)
    ∷ ("window.moved", window_moved_event)
    ∷ ("window.resized", window_resized_event)
    ∷ ("window.minimized", window_minimized_event)
    ∷ ("window.unminimized", window_unminimized_event)
    ∷ ("window.fullscreenChanged", window_fullscreen_changed_event)
    ∷ ("screen.connected", screen_connected_event)
    ∷ ("screen.disconnected", screen_disconnected_event)
    ∷ ("screen.changed", screen_changed_event)
    ∷ ("system.willSleep", system_will_sleep_event)
    ∷ ("system.didWake", system_did_wake_event)
    ∷ ("system.screensDidSleep", system_screens_did_sleep_event)
    ∷ ("system.screensDidWake", system_screens_did_wake_event)
    ∷ ("system.sessionLocked", system_session_locked_event)
    ∷ ("system.sessionUnlocked", system_session_unlocked_event)
    ∷ ("clipboard.changed", clipboard_changed_event)
    ∷ ("wifi.changed", wifi_changed_event)
    ∷ ("audio.outputChanged", audio_output_changed_event)
    ∷ ("audio.inputChanged", audio_input_changed_event)
    ∷ ("audio.deviceChanged", audio_device_changed_event)
    ∷ ("audio.volumeChanged", audio_volume_changed_event)
    ∷ ("audio.muteChanged", audio_mute_changed_event)
    ∷ ("power.sourceChanged", power_source_changed_event)
    ∷ ("power.batteryChanged", power_battery_changed_event)
    ∷ []

-- `MacEvent`: an instance of one of the classes.
pub record MacEvent : Type 0 where
  pub event_class : EventClass
  pub fields : Fields

-- `raw.model_dump(mode="json")`
unfoldable pub dump_event : RawEvent → Fields
dump_event raw = field "v" (int (pos 1)) (
    field "type" (str "event") (
      field "seq" (int raw.seq) (
        field "event" (str raw.event)
          (field "timestamp" (float raw.timestamp) (field "data" (obj raw.payload) empty)))))

-- `Class.model_validate(payload)`, with `none` for a `ValidationError`
unfoldable pub validate_class : Validator → EventClass → Fields → Option MacEvent
unfolding class_decls extend
validate_class validate c payload = elim (validate (instance_of (class_decls c)) (obj payload)) [
  | none ↦ none
  | some v ↦ elim (as_fields v) [
    | none ↦ none
    | some fs ↦ some (record { event_class = c; fields = fs })
  ]
]

-- `none` stands for the `ValidationError` that would leave `parse_event`.
unfoldable pub parse_event : Validator → RawEvent → Option MacEvent
unfolding validate_class dump_event
parse_event validate raw =
    let payload = dump_event raw in
    elim (lookup raw.event event_types) [
      | none ↦ validate_class validate unknown_event payload
      | some c ↦ elim (validate_class validate c payload) [
        | some typed ↦ some typed
        | none ↦ validate_class validate unknown_event payload
      ]
    ]
