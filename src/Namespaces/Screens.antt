-- ===== src/Namespaces/Screens.antt =====
-- `ScreensClient` of python-client/src/hammerspoon_macapi/namespaces/screens.py.
use macpony.Prelude.{String, ◌&&◌, Option, none, some, if◌then◌else◌}
use macpony.Errors.{Outcome, returned, raised, builtin, value_error}
use macpony.Json.{Float, is_nonneg, is_at_most, str, float, Fields, empty, field}
use macpony.Pydantic.{list_of}
use macpony.Models.{instance_of, screen_info, screenshot}
use macpony.Namespaces.{Rpc, rpc, command}

unfoldable pub list : Rpc
list = rpc "screens.list" empty (list_of (instance_of screen_info))

unfoldable pub get : String → Rpc
get screen_id =
    rpc "screens.get" (field "screen_id" (str screen_id) empty) (instance_of screen_info)

unfoldable pub set_brightness : String → Float → Outcome Rpc
set_brightness screen_id brightness =
    if is_nonneg brightness && is_at_most brightness 1
    then (returned (
        command "screens.setBrightness"
          (field "screen_id" (str screen_id) (field "brightness" (float brightness) empty))))
    else raised (builtin value_error)

-- `if screen_id is not None: params["screen_id"] = screen_id`
abbrev screen_params : Option String → Fields
screen_params none = empty
screen_params (some screen_id) = field "screen_id" (str screen_id) empty

unfoldable pub take_screenshot : Option String → String → Rpc
take_screenshot screen_id mode = record {
  method = "screens.screenshot";
  params = field "mode" (str mode) (screen_params screen_id);
  result_type = screenshot;
  timeout = some 10;
}
