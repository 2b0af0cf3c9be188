-- ===== src/Server/Parameters.antt =====
-- What the handlers of hammerspoon/macapi check of their parameters before they call Hammerspoon:
-- validators.lua, and the beginnings of the methods. A check gives the code of its error, or `none`.
pub mod Arguments
pub mod Typed
use macpony.Prelude.{
  ℕ, ◌*◌, ◌^◌, String, Bool, true, false, ◌&&◌, Option, none, some, List, [], ◌∷◌, ◌++◌, leb,
  if◌then◌else◌,
}
use macpony.Prelude.Dict.{Dict, lookup, is_member}
use macpony.Prelude.Int.{ℤ, pos, negsuc}
use macpony.Json.{
  Json, null, bool, int, float, str, arr, obj, Items, nil, cons, Fields, empty, is_nonneg,
  is_at_most,
}
use macpony.Server.Wire.{index, non_empty}

abbrev invalid : Option String
invalid = some "INVALID_PARAMS"

-- `first or second`, of errors
abbrev pub first : Option String → Option String → Option String
first none e = e
first (some code) e = some code

abbrev pub text_error : Json → Option String
text_error j = elim (non_empty j) [ none ↦ invalid | some s ↦ none ]

-- `validators.required_string`
unfoldable pub required_string : String → Fields → Option String
required_string name fs = text_error (index name fs)

abbrev number_error : Json → Option String
number_error (int i) = none
number_error (float x) = none
number_error _ = invalid

-- `validators.required_number`
unfoldable pub required_number : String → Fields → Option String
required_number name fs = number_error (index name fs)

abbrev boolean_error : Json → Option String
boolean_error (bool b) = none
boolean_error _ = invalid

-- `validators.required_boolean`
unfoldable pub required_boolean : String → Fields → Option String
required_boolean name fs = boolean_error (index name fs)

-- `value < 0 or value > n`
abbrev pub range_error : ℕ → Json → Option String
range_error n (int (pos m)) = if leb m n then none else invalid
range_error n (int (negsuc m)) = invalid
range_error n (float x) = if is_nonneg x && is_at_most x n then none else invalid
range_error n _ = none

-- The text is one of a list.
abbrev pub supported : List String → Json → Option String
supported allowed (str s) = if is_member s allowed then none else invalid
supported allowed _ = invalid

-- The branches of `position_frame`.
abbrev pub positions : List String
positions =
    "left-half" ∷ "right-half" ∷ "top-half" ∷ "bottom-half" ∷ "top-left" ∷ "top-right"
    ∷ "bottom-left" ∷ "bottom-right" ∷ "center" ∷ "maximize" ∷ []

abbrev pub allowed_modifiers : List String
allowed_modifiers = "cmd" ∷ "ctrl" ∷ "alt" ∷ "shift" ∷ "fn" ∷ []

abbrev pub allowed_buttons : List String
allowed_buttons = "left" ∷ "right" ∷ "middle" ∷ []

-- The loop over `ipairs(modifiers)`, which stops at a nil.
unfoldable pub modifier_error : Items → Option String
modifier_error nil = none
modifier_error (cons null js) = none
modifier_error (cons j js) = first (supported allowed_modifiers j) (modifier_error js)

-- `params.modifiers or {}`
abbrev modifiers_error : Json → Option String
modifiers_error null = none
modifiers_error (bool false) = none
modifiers_error (arr js) = modifier_error js
modifiers_error (obj fs) = none
modifiers_error _ = invalid

abbrev frame_error : Json → Option String
frame_error (obj fs) =
    first (required_number "x" fs)
      (first (required_number "y" fs) (first (required_number "w" fs) (required_number "h" fs)))
frame_error (arr js) = invalid
frame_error _ = invalid

abbrev pub allowed_modes : List String
allowed_modes = "inline" ∷ "file" ∷ []

-- `params.mode or "inline"`
abbrev mode_error : Json → Option String
mode_error null = none
mode_error (bool false) = none
mode_error j = supported allowed_modes j

-- `if not config.dangerous_actions_enabled then …`
abbrev guarded : Bool → Option String → Option String
guarded enabled e = if enabled then e else some "FEATURE_DISABLED"

-- A method's checks, by `config.dangerous_actions_enabled` and the parameters.
abbrev pub Check : Type 0
Check = Bool → Fields → Option String

abbrev bundle_check : Check
bundle_check enabled = required_string "bundle_id"

abbrev window_check : Check
window_check enabled = required_number "window_id"

-- The methods of each service that check something.
abbrev pub apps_checks : Dict Check
apps_checks =
    ("apps.open", bundle_check)
    ∷ ("apps.focus", bundle_check)
    ∷ ("apps.hide", bundle_check)
    ∷ ("apps.unhide", bundle_check)
    ∷ ("apps.quit", λ enabled fs. guarded enabled (required_string "bundle_id" fs))
    ∷ []

abbrev pub windows_checks : Dict Check
windows_checks =
    ("windows.get", window_check)
    ∷ ("windows.focus", window_check)
    ∷ ("windows.minimize", window_check)
    ∷ ("windows.unminimize", window_check)
    ∷ ("windows.maximize", window_check)
    ∷ (
      "windows.setFullscreen",
      λ enabled fs. first (required_boolean "enabled" fs) (required_number "window_id" fs),
    )
    ∷ (
      "windows.setFrame",
      λ enabled fs. first (required_number "window_id" fs) (frame_error (index "frame" fs)),
    )
    ∷ (
      "windows.move",
      λ enabled fs.
          first (required_number "window_id" fs)
            (first (required_string "position" fs) (supported positions (index "position" fs))),
    )
    ∷ []

abbrev pub screens_checks : Dict Check
screens_checks =
    ("screens.get", λ enabled fs. required_string "screen_id" fs)
    ∷ (
      "screens.setBrightness",
      λ enabled fs.
          first (required_string "screen_id" fs)
            (first (required_number "brightness" fs) (range_error 1 (index "brightness" fs))),
    )
    ∷ ("screens.screenshot", λ enabled fs. mode_error (index "mode" fs))
    ∷ []

abbrev pub audio_checks : Dict Check
audio_checks =
    (
      "audio.setVolume",
      λ enabled fs. first (required_number "volume" fs) (range_error 100 (index "volume" fs)),
    )
    ∷ ("audio.setMuted", λ enabled fs. required_boolean "muted" fs)
    ∷ []

abbrev pub clipboard_checks : Dict Check
clipboard_checks = ("clipboard.set", λ enabled fs. required_string "text" fs) ∷ []

abbrev pub input_checks : Dict Check
input_checks =
    (
      "input.keystroke",
      λ enabled fs.
          guarded enabled
            (first (required_string "key" fs) (modifiers_error (index "modifiers" fs))),
    )
    ∷ ("input.type", λ enabled fs. guarded enabled (required_string "text" fs))
    ∷ (
      "input.mouseMove",
      λ enabled fs. guarded enabled (first (required_number "x" fs) (required_number "y" fs)),
    )
    ∷ (
      "input.mouseClick",
      λ enabled fs. guarded enabled (
          first (required_string "button" fs) (
            first (supported allowed_buttons (index "button" fs))
              (first (required_number "x" fs) (required_number "y" fs)))),
    )
    ∷ []

abbrev pub system_checks : Dict Check
system_checks =
    ("system.lock", λ enabled fs. guarded enabled none)
    ∷ ("system.screensaver", λ enabled fs. guarded enabled none)
    ∷ []

-- Those of all services.
abbrev pub checks : Dict Check
checks =
    apps_checks ++ windows_checks ++ screens_checks ++ audio_checks ++ clipboard_checks
    ++ input_checks ++ system_checks

-- The error of a method's checks.
unfoldable pub params_error : Bool → String → Fields → Option String
unfolding required_string required_number required_boolean modifier_error
params_error enabled method fs = elim (lookup method checks) [
  | none ↦ none
  | some check ↦ check enabled fs
]
