-- ===== src/Namespaces/Catalog.antt =====
-- The methods that the client calls, among those that the server registers.
use macpony.Prelude.{
  String, ◌≡◌, refl, Bool, true, List, [], ◌∷◌, ◌++◌, Option, map, All, all-All, All-append, inl,
  inr, Bool-cases, ◌&&◌,
}
use macpony.Prelude.Dict.{is_member}
use macpony.Prelude.Int.{ℤ}
use macpony.Errors.{Outcome, returned, raised}
use macpony.Json.{Float, is_nonneg, is_at_most}
use macpony.EventsClient.{
  Requested, Sent, subscribe_call, unsubscribe_call, unsubscribe_all_call, get_subscriptions_call,
}
use macpony.Namespaces.{Rpc}
use macpony.Namespaces.Server.{server_methods}
use macpony.Namespaces.Apps
use macpony.Namespaces.Audio
use macpony.Namespaces.Clipboard
use macpony.Namespaces.Input
use macpony.Namespaces.Network
use macpony.Namespaces.Screens
use macpony.Namespaces.System
use macpony.Namespaces.Windows

-- Arguments for every typed method.
pub record Arguments : Type 0 where
  pub bundle_id : String
  pub text : String
  pub modifiers : List String
  pub screen_id : Option String
  pub window_id : ℤ
  pub frame : Windows.Frame
  pub enabled : Bool
  pub x : Float
  pub y : Float
  pub subscriptions : List Requested

-- The method that is called, if the arguments are accepted.
abbrev pub sent : Outcome Rpc → List String
sent (returned r) = r.method ∷ []
sent (raised e) = []

-- The RPC methods that the typed methods without a range check call at these arguments.
abbrev pub unchecked : Arguments → List String
unchecked a =
    map (λ (r : Rpc). r.method)
      (Apps.list
        ∷ Apps.frontmost
        ∷ Apps.open_app a.bundle_id
        ∷ Apps.focus a.bundle_id
        ∷ Apps.hide a.bundle_id
        ∷ Apps.unhide a.bundle_id
        ∷ Apps.quit a.bundle_id
        ∷ Audio.get
        ∷ Audio.set_muted a.enabled
        ∷ Clipboard.get
        ∷ Clipboard.set a.text
        ∷ Input.keystroke a.text a.modifiers
        ∷ Input.type_text a.text
        ∷ Input.mouse_move a.x a.y
        ∷ Input.mouse_click a.text a.x a.y
        ∷ Network.get
        ∷ Screens.list
        ∷ Screens.get a.text
        ∷ Screens.take_screenshot a.screen_id a.text
        ∷ System.info
        ∷ System.status
        ∷ System.capabilities
        ∷ System.user_activity
        ∷ System.lock
        ∷ System.start_screensaver
        ∷ Windows.list
        ∷ Windows.focused
        ∷ Windows.get a.window_id
        ∷ Windows.focus a.window_id
        ∷ Windows.set_frame a.window_id a.frame
        ∷ Windows.move a.window_id a.text
        ∷ Windows.maximize a.window_id
        ∷ Windows.minimize a.window_id
        ∷ Windows.unminimize a.window_id
        ∷ Windows.set_fullscreen a.window_id a.enabled
        ∷ [])
    ++ map (λ (r : Sent). r.method)
        (subscribe_call a.subscriptions
          ∷ unsubscribe_call a.subscriptions
          ∷ unsubscribe_all_call
          ∷ get_subscriptions_call
          ∷ [])

-- Those of all typed methods.
abbrev pub called : Arguments → List String
called a = sent (Audio.set_volume a.x) ++ (sent (Screens.set_brightness a.text a.x) ++ unchecked a)

-- The server has a handler for the method.
abbrev pub IsServed : String → Type 0
IsServed method = is_member method server_methods ≡ true

set_volume-IsServed : (x : Float) → All IsServed (sent (Audio.set_volume x))
unfolding is_member Audio.set_volume
set_volume-IsServed x = elim (Bool-cases (is_nonneg x && is_at_most x 100)) [
  | inl e ↦ rw e (refl, tt)
  | inr e ↦ rw e tt
]

set_brightness-IsServed :
    (s : String) (x : Float) → All IsServed (sent (Screens.set_brightness s x))
unfolding is_member Screens.set_brightness
set_brightness-IsServed s x = elim (Bool-cases (is_nonneg x && is_at_most x 1)) [
  | inl e ↦ rw e (refl, tt)
  | inr e ↦ rw e tt
]

unchecked-IsServed : (a : Arguments) → All IsServed (unchecked a)
unfolding is_member subscribe_call unsubscribe_call unsubscribe_all_call get_subscriptions_call
    Apps.list Apps.frontmost Apps.open_app Apps.focus Apps.hide Apps.unhide Apps.quit Audio.get
    Audio.set_muted Clipboard.get Clipboard.set Input.keystroke Input.type_text Input.mouse_move
    Input.mouse_click Network.get Screens.list Screens.get Screens.take_screenshot System.info
    System.status System.capabilities System.user_activity System.lock System.start_screensaver
    Windows.list Windows.focused Windows.get Windows.focus Windows.set_frame Windows.move
    Windows.maximize Windows.minimize Windows.unminimize Windows.set_fullscreen
unchecked-IsServed a = all-All (λ m. is_member m server_methods) (unchecked a) refl

-- Whatever the arguments, every RPC method that a typed method of the client calls is one that the
-- server registers a handler for.
pub called-IsServed : (a : Arguments) → All IsServed (called a)
called-IsServed a = All-append IsServed (sent (Audio.set_volume a.x)) _ (set_volume-IsServed a.x) (
    All-append IsServed (sent (Screens.set_brightness a.text a.x)) _
      (set_brightness-IsServed a.text a.x) (unchecked-IsServed a))
