-- ===== src/Namespaces/Input.antt =====
-- `InputClient` of python-client/src/hammerspoon_macapi/namespaces/input.py.
use macpony.Prelude.{String, List, [], ◌∷◌}
use macpony.Json.{Float, Items, nil, cons, str, float, arr, empty, field}
use macpony.Namespaces.{Rpc, command}

-- `list(modifiers)`
abbrev pub texts : List String → Items
texts [] = nil
texts (t ∷ ts) = cons (str t) (texts ts)

unfoldable pub keystroke : String → List String → Rpc
keystroke key modifiers =
    command "input.keystroke"
      (field "key" (str key) (field "modifiers" (arr (texts modifiers)) empty))

unfoldable pub type_text : String → Rpc
type_text text = command "input.type" (field "text" (str text) empty)

unfoldable pub mouse_move : Float → Float → Rpc
mouse_move x y = command "input.mouseMove" (field "x" (float x) (field "y" (float y) empty))

unfoldable pub mouse_click : String → Float → Float → Rpc
mouse_click button x y =
    command "input.mouseClick"
      (field "button" (str button) (field "x" (float x) (field "y" (float y) empty)))
