-- ===== src/Namespaces/Audio.antt =====
-- `AudioClient` of python-client/src/hammerspoon_macapi/namespaces/audio.py.
use macpony.Prelude.{Bool, ◌&&◌, if◌then◌else◌}
use macpony.Errors.{Outcome, returned, raised, builtin, value_error}
use macpony.Json.{Float, is_nonneg, is_at_most, bool, float, empty, field}
use macpony.Models.{instance_of, audio_info}
use macpony.Namespaces.{Rpc, rpc, command}

unfoldable pub get : Rpc
get = rpc "audio.get" empty (instance_of audio_info)

unfoldable pub set_volume : Float → Outcome Rpc
set_volume volume =
    if is_nonneg volume && is_at_most volume 100
    then returned (command "audio.setVolume" (field "volume" (float volume) empty))
    else raised (builtin value_error)

unfoldable pub set_muted : Bool → Rpc
set_muted muted = command "audio.setMuted" (field "muted" (bool muted) empty)
