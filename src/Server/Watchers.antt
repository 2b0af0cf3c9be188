-- ===== src/Server/Watchers.antt =====
-- hammerspoon/macapi/watchers.lua: what the watchers keep, and the events that they emit. What the
-- API of Hammerspoon returns is an argument, and a table whose order `pairs` leaves open is a list.
mod Kept
pub mod Screens
pub mod Names
use macpony.Prelude.{
  ℕ, suc, ◌*◌, ◌^◌, String, Bool, true, false, ◌&&◌, not, Option, none, some, List, [], ◌∷◌, ◌++◌,
  ◌==◌, if◌then◌else◌, str_eq,
}
use macpony.Prelude.Dict.{Dict, lookup, insert}
use macpony.Prelude.Int.{pos, negsuc}
use macpony.Json.{
  Float, finite, infinity, neg_infinity, Json, null, bool, str, obj, Fields, empty, field,
}
unfoldable pub use Kept.*

-- The events of the caffeinate watcher that are translated, and any other.
pub data PowerEvent : Type 0 where
  system_will_sleep system_did_wake screens_did_sleep screens_did_wake : PowerEvent
  screens_did_lock screens_did_unlock untranslated : PowerEvent

abbrev pub status_after : PowerEvent → Status → Status
status_after system_will_sleep s = record s { is_sleeping = true }
status_after system_did_wake s = record s { is_sleeping = false }
status_after screens_did_sleep s = record s { screens_sleeping = true; screensaver = true }
status_after screens_did_wake s = record s { screens_sleeping = false; screensaver = false }
status_after screens_did_lock s = record s { is_locked = true }
status_after screens_did_unlock s = record s { is_locked = false }
status_after untranslated s = s

abbrev pub power_emissions : PowerEvent → List Emission
power_emissions system_will_sleep = emits "system.willSleep" (obj empty)
power_emissions system_did_wake = emits "system.didWake" (obj empty)
power_emissions screens_did_sleep = emits "system.screensDidSleep" (obj empty)
power_emissions screens_did_wake = emits "system.screensDidWake" (obj empty)
power_emissions screens_did_lock = emits "system.sessionLocked" (obj empty)
power_emissions screens_did_unlock = emits "system.sessionUnlocked" (obj empty)
power_emissions untranslated = []

-- The events of the application watcher, with those that are not translated.
pub data AppEvent : Type 0 where
  launched terminated activated hidden unhidden other_app_event : AppEvent

abbrev pub app_event_name : AppEvent → Option String
app_event_name launched = some "application.launched"
app_event_name terminated = some "application.terminated"
app_event_name activated = some "application.activated"
app_event_name hidden = some "application.hidden"
app_event_name unhidden = some "application.unhidden"
app_event_name other_app_event = none

-- What the callback of a window filter, apart from a move and a destruction, says of a window.
pub data WindowEvent : Type 0 where
  created focused minimized unminimized fullscreened unfullscreened : WindowEvent

abbrev pub window_event_name : WindowEvent → String
window_event_name created = "window.created"
window_event_name focused = "window.focused"
window_event_name minimized = "window.minimized"
window_event_name unminimized = "window.unminimized"
window_event_name fullscreened = "window.fullscreenChanged"
window_event_name unfullscreened = "window.fullscreenChanged"

-- The default devices and the properties of one that the audio callbacks tell apart.
pub data AudioEvent : Type 0 where
  output_changed input_changed volume_changed mute_changed : AudioEvent
  other_device_event : String → AudioEvent
  other_property : AudioEvent

abbrev pub audio_emissions : AudioEvent → List Emission
audio_emissions output_changed = emits "audio.outputChanged" (obj empty)
audio_emissions input_changed = emits "audio.inputChanged" (obj empty)
audio_emissions volume_changed =
    record { name = "audio.volumeChanged"; payload = obj empty; coalesced = true } ∷ []
audio_emissions mute_changed =
    record { name = "audio.muteChanged"; payload = obj empty; coalesced = true } ∷ []
audio_emissions (other_device_event event) =
    emits "audio.deviceChanged" (obj (field "event" (str event) empty))
audio_emissions other_property = []

-- What a watcher reports, with what its callback then reads from Hammerspoon.
pub data Observation : Type 0 where
  app : AppEvent → Option Json → Observation
  window : WindowEvent → Json → Observation
  moved destroyed : Window → Observation
  screens : List (String × ScreenData) → Json → Observation
  power : PowerEvent → Observation
  wifi : (event : String) → Json → Observation
  audio : AudioEvent → Observation
  battery : (source : String) → Json → Observation
  clipboard : (is_changed : Bool) → Json → Observation

abbrev pub app_emissions : AppEvent → Option Json → List Emission
app_emissions event none = []
app_emissions event (some info) = elim (app_event_name event) [
  | none ↦ []
  | some name ↦ emits name info
]

-- The callback of the battery's watcher; `levels` is the data of `power.batteryChanged`.
unfoldable pub battery_changed : String → Json → Watched → List Emission × Watched
battery_changed source levels s =
    let changed = emits "power.batteryChanged" levels in
    if str_eq source s.previous_power_source then (changed, s) else (
      emits "power.sourceChanged" (obj (field "source" (str source) empty)) ++ changed,
      record s { previous_power_source = source },
    )

-- The callback of the watcher that reports.
unfoldable pub observe : Observation → Watched → List Emission × Watched
unfolding window_moved screen_topology battery_changed
observe (app event info) s = (app_emissions event info, s)
observe (window event payload) s = (emits (window_event_name event) payload, s)
observe (moved w) s = window_moved w s
observe (destroyed w) s = (
  emits "window.destroyed" w.payload,
  record s { previous_frames = without_frame w.id s.previous_frames },
)
observe (screens all listed) s = screen_topology all listed s
observe (power event) s = (power_emissions event, record s { status = status_after event s.status })
observe (wifi event payload) s =
    if str_eq event "SSIDChange"
    then (emits "wifi.changed" payload, s)
    else if str_eq event "linkChange"
    then (emits "wifi.changed" payload, s)
    else ([], s)
observe (audio event) s = (audio_emissions event, s)
observe (battery source levels) s = battery_changed source levels s
observe (clipboard is_changed payload) s =
    if s.clipboard_active && is_changed then (emits "clipboard.changed" payload, s) else ([], s)

-- All that is emitted on the way, and what is kept.
unfoldable pub observe_all : List Observation → Watched → List Emission × Watched
unfolding observe
observe_all [] s = ([], s)
observe_all (o ∷ os) s =
    let (es, s') = observe o s in let (fs, s'') = observe_all os s' in (es ++ fs, s'')

-- What `M.start` keeps: the screens that are there, and the power source.
abbrev pub started : List (String × ScreenData) → String → Watched
started all source = record {
  previous_frames = [];
  known_screens = screen_table all [];
  previous_power_source = source;
  clipboard_active = true;
  status = no_status;
}
