-- ===== src/Server/Parameters/Typed.antt =====
-- The server's checks of what the typed methods send.
use mathlib.Core.Path.{subst}
use macpony.Prelude.{
  String, ◌≡◌, refl, ap, ◌≢◌, ◌∙◌, false, Bool-cases, ◌&&◌, true, Option, none, List, [], ◌∷◌, ◌++◌,
  All, All-append, all-All, inl, inr, eq_iff, arith,
}
use macpony.Prelude.Dict.{lookup, is_member, is_member-All}
use macpony.Prelude.Int.{ℤ}
use macpony.Json.{float, is_nonneg, is_at_most, Float, str, get}
use macpony.Namespaces.{Rpc}
use macpony.Server.Parameters.{
  text_error, range_error, allowed_modes, supported, first, positions, allowed_modifiers,
  allowed_buttons, modifier_error, params_error,
}
use macpony.Namespaces.Apps
use macpony.Namespaces.Audio
use macpony.Namespaces.Clipboard
use macpony.Namespaces.Input
use macpony.Namespaces.Screens
use macpony.Namespaces.System
use macpony.Namespaces.Windows
use macpony.Server.Parameters.Arguments.{
  window_position, modifier, mouse_button, screenshot_mode, TypedArguments, IsTyped, sent,
  with_text, with_numbers, with_literals, typed_calls,
}

-- The server goes on with the call.
abbrev pub Passes : Rpc → Type 0
Passes r = params_error true r.method r.params ≡ none

text_error-text : (t : String) → t ≢ "" → text_error (str t) ≡ none
text_error-text t h = ground (arith, eq_iff t "")

supported-member :
    (allowed more : List String) (t : String)
    → All (λ n. is_member n more ≡ true) allowed
    → is_member t allowed ≡ true
    → supported more (str t) ≡ none
supported-member allowed more t h m =
    let there : is_member t more ≡ true =
      is_member-All (λ n. is_member n more ≡ true) t allowed h m in
    ground (arith, there)

-- The server's tables have every literal of the client.
known_positions : All (λ n. is_member n positions ≡ true) window_position
unfolding is_member
known_positions = all-All (λ n. is_member n positions) window_position refl

known_modifiers : All (λ n. is_member n allowed_modifiers ≡ true) modifier
unfolding is_member
known_modifiers = all-All (λ n. is_member n allowed_modifiers) modifier refl

known_buttons : All (λ n. is_member n allowed_buttons ≡ true) mouse_button
unfolding is_member
known_buttons = all-All (λ n. is_member n allowed_buttons) mouse_button refl

known_modes : All (λ n. is_member n allowed_modes ≡ true) screenshot_mode
unfolding is_member
known_modes = all-All (λ n. is_member n allowed_modes) screenshot_mode refl

is_member-text :
    (t : String) (ts : List String) → is_member t ts ≡ true → is_member "" ts ≡ false → t ≢ ""
is_member-text t ts h k e =
    absurd (let bad : is_member "" ts ≡ true = subst (λ u. is_member u ts ≡ true) e h in cc)

modifier_error-typed :
    (ms : List String)
    → All (λ m. is_member m modifier ≡ true) ms
    → modifier_error (Input.texts ms) ≡ none
unfolding modifier_error
modifier_error-typed [] h = refl
modifier_error-typed (m ∷ ms) h =
    let one : supported allowed_modifiers (str m) ≡ none =
      supported-member modifier allowed_modifiers m known_modifiers h.0 in
    ap (λ e. first e (modifier_error (Input.texts ms))) one ∙ modifier_error-typed ms h.1

with_text-Passes : (t : String) → t ≢ "" → All Passes (with_text t)
unfolding params_error lookup get Apps.open_app Apps.focus Apps.hide Apps.unhide Apps.quit
    Screens.get Clipboard.set Input.type_text
with_text-Passes t h =
    let ok = text_error-text t h in (ok, (ok, (ok, (ok, (ok, (ok, (ok, (ok, tt))))))))

with_numbers-Passes : (a : TypedArguments) → All Passes (with_numbers a)
unfolding params_error lookup get Windows.get Windows.focus Windows.minimize Windows.unminimize
    Windows.maximize Windows.set_fullscreen Windows.set_frame Audio.set_muted Input.mouse_move
    System.lock System.start_screensaver
with_numbers-Passes a =
    (refl, (refl, (refl, (refl, (refl, (refl, (refl, (refl, (refl, (refl, (refl, tt)))))))))))

move-Passes : (i : ℤ) (t : String) → is_member t window_position ≡ true → Passes (Windows.move i t)
unfolding params_error lookup get Windows.move
move-Passes i t h =
    ap (λ e. first e (supported positions (str t)))
      (text_error-text t (is_member-text t window_position h (unfold is_member in refl)))
    ∙ supported-member window_position positions t known_positions h

take_screenshot-Passes :
    (s : Option String) (t : String)
    → is_member t screenshot_mode ≡ true
    → Passes (Screens.take_screenshot s t)
unfolding params_error lookup get Screens.take_screenshot
take_screenshot-Passes s t h = supported-member screenshot_mode allowed_modes t known_modes h

keystroke-Passes :
    (t : String) (ms : List String)
    → t ≢ ""
    → All (λ m. is_member m modifier ≡ true) ms
    → Passes (Input.keystroke t ms)
unfolding params_error lookup get Input.keystroke
keystroke-Passes t ms h k =
    ap (λ e. first e (modifier_error (Input.texts ms))) (text_error-text t h)
    ∙ modifier_error-typed ms k

mouse_click-Passes :
    (t : String) (x y : Float) → is_member t mouse_button ≡ true → Passes (Input.mouse_click t x y)
unfolding params_error lookup get Input.mouse_click
mouse_click-Passes t x y h =
    ap (λ e. first e (first (supported allowed_buttons (str t)) none))
      (text_error-text t (is_member-text t mouse_button h (unfold is_member in refl)))
    ∙ ap (λ e. first e none) (supported-member mouse_button allowed_buttons t known_buttons h)

set_volume-Passes : (x : Float) → All Passes (sent (Audio.set_volume x))
unfolding params_error lookup get Audio.set_volume
set_volume-Passes x = elim (Bool-cases (is_nonneg x && is_at_most x 100)) [
  | inl e ↦ rw e (rw e (refl, tt))
  | inr e ↦ rw e tt
]

set_brightness-Passes :
    (t : String) (x : Float) → t ≢ "" → All Passes (sent (Screens.set_brightness t x))
unfolding params_error lookup get Screens.set_brightness
set_brightness-Passes t x h = elim (Bool-cases (is_nonneg x && is_at_most x 1)) [
  | inl e ↦
      let inside : range_error 1 (float x) ≡ none = rw e refl in
      rw e (ap (λ o. first o (range_error 1 (float x))) (text_error-text t h) ∙ inside, tt)
  | inr e ↦ rw e tt
]

-- The server's checks of the parameters pass whatever the typed methods of the client send, if the
-- texts are not empty, the literals are of the types that the methods declare, and the server has
-- not switched off its dangerous actions: no such call ends with the error for invalid
-- parameters or for a disabled feature before Hammerspoon is asked.
pub typed_calls-Passes : (a : TypedArguments) → IsTyped a → All Passes (typed_calls a)
typed_calls-Passes a h =
    let literal : All Passes (with_literals a) = (
      move-Passes a.window_id a.position h.typed_position,
      (
        take_screenshot-Passes a.screen_id a.mode h.typed_mode,
        (
          keystroke-Passes a.text a.modifiers h.some_text h.typed_modifiers,
          (mouse_click-Passes a.button a.x a.y h.typed_button, tt),
        ),
      ),
    ) in
    let ranged = sent (Audio.set_volume a.x) ++ sent (Screens.set_brightness a.text a.x) in
    All-append Passes (with_text a.text) (with_numbers a ++ (with_literals a ++ ranged))
      (with_text-Passes a.text h.some_text)
      (All-append Passes (with_numbers a) (with_literals a ++ ranged) (with_numbers-Passes a) (
        All-append Passes (with_literals a) ranged literal (
          All-append Passes (sent (Audio.set_volume a.x)) (sent (Screens.set_brightness a.text a.x))
            (set_volume-Passes a.x) (set_brightness-Passes a.text a.x h.some_text))))
