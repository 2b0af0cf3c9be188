-- ===== src/Exports.antt =====
-- The names that python-client/src/hammerspoon_macapi/__init__.py brings in and exports.
mod Namespaces
use macpony.Errors.{
  ErrorClass, mac_api_error, connection_error, connection_lost_error, protocol_error,
  protocol_version_error, server_capability_error, rpc_error, rpc_timeout_error,
  method_not_found_error, invalid_params_error, feature_disabled_error, app_not_found_error,
  window_not_found_error, screen_not_found_error, permission_required_error, value_error, os_error,
  cancelled_error, recursion_error,
}
use macpony.Events.{
  EventClass, application_activated_event, application_launched_event, application_terminated_event,
  application_hidden_event, application_unhidden_event, window_created_event,
  window_destroyed_event, window_focused_event, window_moved_event, window_resized_event,
  window_minimized_event, window_unminimized_event, window_fullscreen_changed_event,
  screen_connected_event, screen_disconnected_event, screen_changed_event, system_will_sleep_event,
  system_did_wake_event, system_screens_did_sleep_event, system_screens_did_wake_event,
  system_session_locked_event, system_session_unlocked_event, clipboard_changed_event,
  wifi_changed_event, audio_output_changed_event, audio_input_changed_event,
  audio_device_changed_event, audio_volume_changed_event, audio_mute_changed_event,
  power_source_changed_event, power_battery_changed_event, unknown_event,
}
use macpony.Prelude.{Option, none, some, String, ◌≡◌, refl, true, List, [], ◌∷◌, ◌++◌, all-All, ◌↔◌}
use macpony.Prelude.Dict.{is_member, is_member-All}

-- The imported names, by the module that they are imported from.
abbrev pub imports : List (String × List String)
imports =
    (".client", "MacAPI" ∷ [])
    ∷ (".connection", "ConnectionState" ∷ [])
    ∷ (
      ".events",
      "ApplicationActivatedEvent" ∷ "ApplicationHiddenEvent" ∷ "ApplicationLaunchedEvent"
          ∷ "ApplicationTerminatedEvent" ∷ "ApplicationUnhiddenEvent" ∷ "AudioDeviceChangedEvent"
          ∷ "AudioInputChangedEvent" ∷ "AudioMuteChangedEvent" ∷ "AudioOutputChangedEvent"
          ∷ "AudioVolumeChangedEvent" ∷ "ClipboardChangedEvent" ∷ "MacEvent"
          ∷ "PowerBatteryChangedEvent" ∷ "PowerSourceChangedEvent" ∷ "ScreenChangedEvent"
          ∷ "ScreenConnectedEvent" ∷ "ScreenDisconnectedEvent" ∷ "SystemDidWakeEvent"
          ∷ "SystemScreensDidSleepEvent" ∷ "SystemScreensDidWakeEvent" ∷ "SystemSessionLockedEvent"
          ∷ "SystemSessionUnlockedEvent" ∷ "SystemWillSleepEvent" ∷ "UnknownEvent"
          ∷ "WifiChangedEvent" ∷ "WindowCreatedEvent" ∷ "WindowDestroyedEvent"
          ∷ "WindowFocusedEvent" ∷ "WindowFullscreenChangedEvent" ∷ "WindowMinimizedEvent"
          ∷ "WindowMovedEvent" ∷ "WindowResizedEvent" ∷ "WindowUnminimizedEvent" ∷ [],
    )
    ∷ (
      ".exceptions",
      "AppNotFoundError" ∷ "ConnectionError" ∷ "ConnectionLostError" ∷ "FeatureDisabledError"
          ∷ "InvalidParamsError" ∷ "MacAPIError" ∷ "MethodNotFoundError" ∷ "PermissionRequiredError"
          ∷ "ProtocolError" ∷ "ProtocolVersionError" ∷ "RPCError" ∷ "RPCTimeoutError"
          ∷ "ScreenNotFoundError" ∷ "ServerCapabilityError" ∷ "WindowNotFoundError" ∷ [],
    )
    ∷ (
      ".models",
      "ApplicationInfo" ∷ "AudioInfo" ∷ "AudioInputInfo" ∷ "AudioOutputInfo" ∷ "Capabilities"
          ∷ "ClipboardText" ∷ "FileScreenshot" ∷ "Frame" ∷ "InlineScreenshot" ∷ "Modifier"
          ∷ "MouseButton" ∷ "NetworkInfo" ∷ "NetworkInterface" ∷ "OSInfo" ∷ "ScreenInfo"
          ∷ "Screenshot" ∷ "ScreenshotMode" ∷ "SystemInfo" ∷ "SystemStatus" ∷ "WindowInfo"
          ∷ "WindowPosition" ∷ [],
    )
    ∷ (".namespaces.events", "EventSubscription" ∷ [])
    ∷ []

-- The names that the imports bind.
abbrev pub bound_names : List (String × List String) → List String
bound_names [] = []
bound_names ((m, names) ∷ rest) = names ++ bound_names rest

-- `__all__`
abbrev pub exported : List String
exported =
    "ApplicationActivatedEvent" ∷ "AudioDeviceChangedEvent" ∷ "AudioInputChangedEvent"
    ∷ "AudioMuteChangedEvent" ∷ "AudioOutputChangedEvent" ∷ "AudioVolumeChangedEvent"
    ∷ "ApplicationHiddenEvent" ∷ "ApplicationInfo" ∷ "ApplicationLaunchedEvent"
    ∷ "ApplicationTerminatedEvent" ∷ "ApplicationUnhiddenEvent" ∷ "AppNotFoundError" ∷ "AudioInfo"
    ∷ "AudioInputInfo" ∷ "AudioOutputInfo" ∷ "Capabilities" ∷ "ClipboardChangedEvent"
    ∷ "ClipboardText" ∷ "ConnectionError" ∷ "ConnectionLostError" ∷ "ConnectionState"
    ∷ "EventSubscription" ∷ "FeatureDisabledError" ∷ "FileScreenshot" ∷ "Frame" ∷ "InlineScreenshot"
    ∷ "InvalidParamsError" ∷ "MacAPI" ∷ "MacAPIError" ∷ "MacEvent" ∷ "Modifier" ∷ "MouseButton"
    ∷ "MethodNotFoundError" ∷ "NetworkInterface" ∷ "NetworkInfo" ∷ "OSInfo"
    ∷ "PermissionRequiredError" ∷ "PowerBatteryChangedEvent" ∷ "PowerSourceChangedEvent"
    ∷ "ProtocolError" ∷ "ProtocolVersionError" ∷ "RPCError" ∷ "RPCTimeoutError"
    ∷ "ServerCapabilityError" ∷ "ScreenChangedEvent" ∷ "ScreenConnectedEvent"
    ∷ "ScreenDisconnectedEvent" ∷ "ScreenInfo" ∷ "ScreenNotFoundError" ∷ "Screenshot"
    ∷ "ScreenshotMode" ∷ "SystemDidWakeEvent" ∷ "SystemInfo" ∷ "SystemScreensDidSleepEvent"
    ∷ "SystemScreensDidWakeEvent" ∷ "SystemSessionLockedEvent" ∷ "SystemSessionUnlockedEvent"
    ∷ "SystemStatus" ∷ "SystemWillSleepEvent" ∷ "UnknownEvent" ∷ "WifiChangedEvent"
    ∷ "WindowCreatedEvent" ∷ "WindowDestroyedEvent" ∷ "WindowFocusedEvent"
    ∷ "WindowFullscreenChangedEvent" ∷ "WindowInfo" ∷ "WindowMinimizedEvent" ∷ "WindowMovedEvent"
    ∷ "WindowNotFoundError" ∷ "WindowPosition" ∷ "WindowResizedEvent" ∷ "WindowUnminimizedEvent"
    ∷ []

-- The name of an event class.
unfoldable pub event_class : EventClass → String
event_class application_activated_event = "ApplicationActivatedEvent"
event_class application_launched_event = "ApplicationLaunchedEvent"
event_class application_terminated_event = "ApplicationTerminatedEvent"
event_class application_hidden_event = "ApplicationHiddenEvent"
event_class application_unhidden_event = "ApplicationUnhiddenEvent"
event_class window_created_event = "WindowCreatedEvent"
event_class window_destroyed_event = "WindowDestroyedEvent"
event_class window_focused_event = "WindowFocusedEvent"
event_class window_moved_event = "WindowMovedEvent"
event_class window_resized_event = "WindowResizedEvent"
event_class window_minimized_event = "WindowMinimizedEvent"
event_class window_unminimized_event = "WindowUnminimizedEvent"
event_class window_fullscreen_changed_event = "WindowFullscreenChangedEvent"
event_class screen_connected_event = "ScreenConnectedEvent"
event_class screen_disconnected_event = "ScreenDisconnectedEvent"
event_class screen_changed_event = "ScreenChangedEvent"
event_class system_will_sleep_event = "SystemWillSleepEvent"
event_class system_did_wake_event = "SystemDidWakeEvent"
event_class system_screens_did_sleep_event = "SystemScreensDidSleepEvent"
event_class system_screens_did_wake_event = "SystemScreensDidWakeEvent"
event_class system_session_locked_event = "SystemSessionLockedEvent"
event_class system_session_unlocked_event = "SystemSessionUnlockedEvent"
event_class clipboard_changed_event = "ClipboardChangedEvent"
event_class wifi_changed_event = "WifiChangedEvent"
event_class audio_output_changed_event = "AudioOutputChangedEvent"
event_class audio_input_changed_event = "AudioInputChangedEvent"
event_class audio_device_changed_event = "AudioDeviceChangedEvent"
event_class audio_volume_changed_event = "AudioVolumeChangedEvent"
event_class audio_mute_changed_event = "AudioMuteChangedEvent"
event_class power_source_changed_event = "PowerSourceChangedEvent"
event_class power_battery_changed_event = "PowerBatteryChangedEvent"
event_class unknown_event = "UnknownEvent"

-- The name of an exception class of the package; `none` for a built-in one.
unfoldable pub error_class : ErrorClass → Option String
error_class mac_api_error = some "MacAPIError"
error_class connection_error = some "ConnectionError"
error_class connection_lost_error = some "ConnectionLostError"
error_class protocol_error = some "ProtocolError"
error_class protocol_version_error = some "ProtocolVersionError"
error_class server_capability_error = some "ServerCapabilityError"
error_class rpc_error = some "RPCError"
error_class rpc_timeout_error = some "RPCTimeoutError"
error_class method_not_found_error = some "MethodNotFoundError"
error_class invalid_params_error = some "InvalidParamsError"
error_class feature_disabled_error = some "FeatureDisabledError"
error_class app_not_found_error = some "AppNotFoundError"
error_class window_not_found_error = some "WindowNotFoundError"
error_class screen_not_found_error = some "ScreenNotFoundError"
error_class permission_required_error = some "PermissionRequiredError"
error_class _ = none

-- The name, if there is one, stands in `__all__`.
abbrev pub IsExported : Option String → Type 0
IsExported none = Unit {0}
IsExported (some name) = is_member name exported ≡ true

event_class-IsExported : (c : EventClass) → IsExported (some (event_class c))
unfolding is_member event_class
event_class-IsExported unknown_event = refl
event_class-IsExported _ = refl

error_class-IsExported : (c : ErrorClass) → IsExported (error_class c)
unfolding is_member error_class
error_class-IsExported value_error = tt
error_class-IsExported os_error = tt
error_class-IsExported cancelled_error = tt
error_class-IsExported recursion_error = tt
error_class-IsExported _ = refl

exported-imports :
    (name : String)
    → (is_member name exported ≡ true) ↔ (is_member name (bound_names imports) ≡ true)
unfolding is_member
exported-imports name = (
  is_member-All (λ n. is_member n (bound_names imports) ≡ true) name exported
      (all-All (λ n. is_member n (bound_names imports)) exported refl),
  is_member-All (λ n. is_member n exported ≡ true) name (bound_names imports)
      (all-All (λ n. is_member n exported) (bound_names imports) refl),
)

-- The package exports exactly the names that it imports, so that `from … import *` finds every one
-- of them; and they include the name of every event class that `parse_event` can return and that
-- of every exception class of the package.
exported-agree :
    (name : String) (event : EventClass) (error : ErrorClass)
    → ((is_member name exported ≡ true) ↔ (is_member name (bound_names imports) ≡ true))
      × IsExported (some (event_class event))
      × IsExported (error_class error)
exported-agree name event error =
    (exported-imports name, event_class-IsExported event, error_class-IsExported error)
