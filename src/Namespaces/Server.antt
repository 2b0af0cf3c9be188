-- ===== src/Namespaces/Server.antt =====
-- The methods that the server registers, in hammerspoon/macapi.
use macpony.Prelude.{String, List, [], ◌∷◌, ◌++◌}

abbrev pub apps_methods : List String
apps_methods =
    "apps.list" ∷ "apps.frontmost" ∷ "apps.open" ∷ "apps.focus" ∷ "apps.hide" ∷ "apps.unhide"
    ∷ "apps.quit" ∷ []

abbrev pub audio_methods : List String
audio_methods = "audio.get" ∷ "audio.setVolume" ∷ "audio.setMuted" ∷ []

abbrev pub clipboard_methods : List String
clipboard_methods = "clipboard.get" ∷ "clipboard.set" ∷ []

abbrev pub events_methods : List String
events_methods =
    "events.subscribe" ∷ "events.unsubscribe" ∷ "events.unsubscribeAll" ∷ "events.getSubscriptions"
    ∷ []

abbrev pub input_methods : List String
input_methods = "input.keystroke" ∷ "input.type" ∷ "input.mouseMove" ∷ "input.mouseClick" ∷ []

abbrev pub network_methods : List String
network_methods = "network.get" ∷ []

abbrev pub screens_methods : List String
screens_methods =
    "screens.list" ∷ "screens.get" ∷ "screens.setBrightness" ∷ "screens.screenshot" ∷ []

abbrev pub system_methods : List String
system_methods =
    "protocol.ping" ∷ "system.capabilities" ∷ "system.info" ∷ "system.status"
    ∷ "system.userActivity" ∷ "system.lock" ∷ "system.screensaver" ∷ []

abbrev pub windows_methods : List String
windows_methods =
    "windows.list" ∷ "windows.focused" ∷ "windows.get" ∷ "windows.focus" ∷ "windows.minimize"
    ∷ "windows.unminimize" ∷ "windows.maximize" ∷ "windows.setFullscreen" ∷ "windows.setFrame"
    ∷ "windows.move" ∷ []

-- All that `dispatcher.lua` registers.
abbrev pub server_methods : List String
server_methods =
    system_methods ++ apps_methods ++ windows_methods ++ screens_methods ++ audio_methods
    ++ clipboard_methods ++ network_methods ++ input_methods ++ events_methods
