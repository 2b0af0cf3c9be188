-- ===== src/Server/Parameters/Arguments.antt =====
-- The arguments of the typed methods, and the calls that these make of them.
use macpony.Prelude.{String, ◌≡◌, ◌≢◌, Bool, true, Option, List, [], ◌∷◌, ◌++◌, All}
use macpony.Prelude.Dict.{is_member}
use macpony.Prelude.Int.{ℤ}
use macpony.Errors.{Outcome, returned, raised}
use macpony.Json.{Float}
use macpony.Namespaces.{Rpc}
use macpony.Namespaces.Apps
use macpony.Namespaces.Audio
use macpony.Namespaces.Clipboard
use macpony.Namespaces.Input
use macpony.Namespaces.Screens
use macpony.Namespaces.System
use macpony.Namespaces.Windows

-- The `Literal` types of models.py.
abbrev pub window_position : List String
window_position =
    "left-half" ∷ "right-half" ∷ "top-half" ∷ "bottom-half" ∷ "center" ∷ "maximize" ∷ "top-left"
    ∷ "top-right" ∷ "bottom-left" ∷ "bottom-right" ∷ []

abbrev pub modifier : List String
modifier = "cmd" ∷ "ctrl" ∷ "alt" ∷ "shift" ∷ "fn" ∷ []

abbrev pub mouse_button : List String
mouse_button = "left" ∷ "right" ∷ "middle" ∷ []

abbrev pub screenshot_mode : List String
screenshot_mode = "inline" ∷ "file" ∷ []

-- Arguments of the types that the methods declare.
pub record TypedArguments : Type 0 where
  pub text : String
  pub screen_id : Option String
  pub position : String
  pub modifiers : List String
  pub button : String
  pub mode : String
  pub window_id : ℤ
  pub frame : Windows.Frame
  pub is_on : Bool
  pub x : Float
  pub y : Float

-- The texts are not empty, and the literals are of their types.
pub record IsTyped (a : TypedArguments) : Type 0 where
  pub some_text : a.text ≢ ""
  pub typed_position : is_member a.position window_position ≡ true
  pub typed_modifiers : All (λ m. is_member m modifier ≡ true) a.modifiers
  pub typed_button : is_member a.button mouse_button ≡ true
  pub typed_mode : is_member a.mode screenshot_mode ≡ true

-- What the method sends, if it sends anything.
abbrev pub sent : Outcome Rpc → List Rpc
sent (returned r) = r ∷ []
sent (raised e) = []

-- The calls with a text, with numbers and flags, and with literals.
abbrev pub with_text : String → List Rpc
with_text t =
    Apps.open_app t
    ∷ Apps.focus t
    ∷ Apps.hide t
    ∷ Apps.unhide t
    ∷ Apps.quit t
    ∷ Screens.get t
    ∷ Clipboard.set t
    ∷ Input.type_text t
    ∷ []

abbrev pub with_numbers : TypedArguments → List Rpc
with_numbers a =
    Windows.get a.window_id
    ∷ Windows.focus a.window_id
    ∷ Windows.minimize a.window_id
    ∷ Windows.unminimize a.window_id
    ∷ Windows.maximize a.window_id
    ∷ Windows.set_fullscreen a.window_id a.is_on
    ∷ Windows.set_frame a.window_id a.frame
    ∷ Audio.set_muted a.is_on
    ∷ Input.mouse_move a.x a.y
    ∷ System.lock
    ∷ System.start_screensaver
    ∷ []

abbrev pub with_literals : TypedArguments → List Rpc
with_literals a =
    Windows.move a.window_id a.position
    ∷ Screens.take_screenshot a.screen_id a.mode
    ∷ Input.keystroke a.text a.modifiers
    ∷ Input.mouse_click a.button a.x a.y
    ∷ []

-- The calls of all methods whose parameters the server checks.
abbrev pub typed_calls : TypedArguments → List Rpc
typed_calls a =
    with_text a.text
    ++ (with_numbers a
        ++ (with_literals a
            ++ (sent (Audio.set_volume a.x) ++ sent (Screens.set_brightness a.text a.x))))
