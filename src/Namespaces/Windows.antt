-- ===== src/Namespaces/Windows.antt =====
-- `WindowsClient` of python-client/src/hammerspoon_macapi/namespaces/windows.py.
use macpony.Prelude.{String, Bool}
use macpony.Prelude.Int.{ℤ}
use macpony.Json.{Float, str, int, float, bool, obj, Fields, empty, field}
use macpony.Pydantic.{list_of, optional}
use macpony.Models.{instance_of, window_info}
use macpony.Namespaces.{Rpc, rpc, command}

-- An instance of `Frame` in models.py.
pub record Frame : Type 0 where
  pub x : Float
  pub y : Float
  pub w : Float
  pub h : Float

-- `frame.model_dump()`
abbrev dump_frame : Frame → Fields
dump_frame f =
    field "x" (float f.x)
      (field "y" (float f.y) (field "w" (float f.w) (field "h" (float f.h) empty)))

-- `{"window_id": window_id, …}`
abbrev window : ℤ → Fields → Fields
window window_id fs = field "window_id" (int window_id) fs

unfoldable pub list : Rpc
list = rpc "windows.list" empty (list_of (instance_of window_info))

unfoldable pub focused : Rpc
focused = rpc "windows.focused" empty (optional (instance_of window_info))

unfoldable pub get : ℤ → Rpc
get window_id = rpc "windows.get" (window window_id empty) (instance_of window_info)

unfoldable pub set_frame : ℤ → Frame → Rpc
set_frame window_id f =
    command "windows.setFrame" (window window_id (field "frame" (obj (dump_frame f)) empty))

unfoldable pub move : ℤ → String → Rpc
move window_id position =
    command "windows.move" (window window_id (field "position" (str position) empty))

unfoldable pub set_fullscreen : ℤ → Bool → Rpc
set_fullscreen window_id enabled =
    command "windows.setFullscreen" (window window_id (field "enabled" (bool enabled) empty))

unfoldable pub focus : ℤ → Rpc
focus window_id = command "windows.focus" (window window_id empty)

unfoldable pub maximize : ℤ → Rpc
maximize window_id = command "windows.maximize" (window window_id empty)

unfoldable pub minimize : ℤ → Rpc
minimize window_id = command "windows.minimize" (window window_id empty)

unfoldable pub unminimize : ℤ → Rpc
unminimize window_id = command "windows.unminimize" (window window_id empty)
