-- ===== src/Server/Watchers/Names.antt =====
-- The names of the events that the watchers emit, against the catalog and the client's classes.
use macpony.Prelude.{
  String, ◌≡◌, refl, Bool, true, false, ◌&&◌, str_eq, if◌then◌else◌, inl, inr, Bool-cases, none,
  some, List, [], ◌∷◌, All, All-append, All-map,
}
use macpony.Prelude.Dict.{Dict, is_member, is_member-All}
use macpony.Events.Catalog.{server_events, IsTyped, server_events-IsTyped}
use macpony.Json.{Json}
use macpony.Server.Watchers.{
  Emission, emits, ScreenData, is_known, missing_from, screen_table, Observation, app, window,
  moved, destroyed, screens, power, wifi, audio, battery, clipboard, observe, observe_all, Watched,
  AppEvent, launched, terminated, activated, hidden, unhidden, other_app_event, WindowEvent,
  created, focused, minimized, unminimized, fullscreened, unfullscreened, window_event_name,
  PowerEvent, system_will_sleep, system_did_wake, screens_did_sleep, screens_did_wake,
  screens_did_lock, screens_did_unlock, untranslated, power_emissions, AudioEvent, output_changed,
  input_changed, volume_changed, mute_changed, other_device_event, other_property, audio_emissions,
  app_emissions, frame_of, is_resized,
}

-- The event is in the server's catalog.
abbrev IsListed : Emission → Type 0
IsListed e = is_member e.name server_events ≡ true

missing_from-IsListed :
    (name : String) (others current : Dict ScreenData)
    → is_member name server_events ≡ true
    → All IsListed (missing_from name others current)
unfolding missing_from
missing_from-IsListed name others [] h = tt
missing_from-IsListed name others ((id, d) ∷ current) h = elim (Bool-cases (is_known id others)) [
  | inl e ↦ rw e (missing_from-IsListed name others current h)
  | inr e ↦ rw e (h, missing_from-IsListed name others current h)
]

app-IsListed : (event : AppEvent) (info : Json) → All IsListed (app_emissions event (some info))
unfolding is_member
app-IsListed launched info = (refl, tt)
app-IsListed terminated info = (refl, tt)
app-IsListed activated info = (refl, tt)
app-IsListed hidden info = (refl, tt)
app-IsListed unhidden info = (refl, tt)
app-IsListed other_app_event info = tt

window-IsListed :
    (event : WindowEvent) (payload : Json) → All IsListed (emits (window_event_name event) payload)
unfolding is_member
window-IsListed created payload = (refl, tt)
window-IsListed focused payload = (refl, tt)
window-IsListed minimized payload = (refl, tt)
window-IsListed unminimized payload = (refl, tt)
window-IsListed fullscreened payload = (refl, tt)
window-IsListed unfullscreened payload = (refl, tt)

power-IsListed : (event : PowerEvent) → All IsListed (power_emissions event)
unfolding is_member
power-IsListed system_will_sleep = (refl, tt)
power-IsListed system_did_wake = (refl, tt)
power-IsListed screens_did_sleep = (refl, tt)
power-IsListed screens_did_wake = (refl, tt)
power-IsListed screens_did_lock = (refl, tt)
power-IsListed screens_did_unlock = (refl, tt)
power-IsListed untranslated = tt

audio-IsListed : (event : AudioEvent) → All IsListed (audio_emissions event)
unfolding is_member
audio-IsListed output_changed = (refl, tt)
audio-IsListed input_changed = (refl, tt)
audio-IsListed volume_changed = (refl, tt)
audio-IsListed mute_changed = (refl, tt)
audio-IsListed (other_device_event event) = (refl, tt)
audio-IsListed other_property = tt

-- An `if` between two lists of listed events.
if-IsListed :
    (b : Bool) (r t : List Emission × Watched)
    → All IsListed r.0
    → All IsListed t.0
    → All IsListed (if b then r else t).0
if-IsListed true r t h k = h
if-IsListed false r t h k = k

observe-IsListed : (o : Observation) (s : Watched) → All IsListed (observe o s).0
unfolding observe is_member
observe-IsListed (app event none) s = tt
observe-IsListed (app event (some info)) s = app-IsListed event info
observe-IsListed (window event payload) s = window-IsListed event payload
observe-IsListed (moved w) s = elim (Bool-cases (is_resized (frame_of w.id s.previous_frames) w)) [
  | inl e ↦ rw e (refl, tt)
  | inr e ↦ rw e (refl, tt)
]
observe-IsListed (destroyed w) s = (refl, tt)
observe-IsListed (screens all listed) s =
    let current = screen_table all [] in
    All-append IsListed (missing_from "screen.connected" s.known_screens current) _
      (missing_from-IsListed "screen.connected" s.known_screens current refl)
      (All-append IsListed (missing_from "screen.disconnected" current s.known_screens) _
        (missing_from-IsListed "screen.disconnected" current s.known_screens refl) (refl, tt))
observe-IsListed (power event) s = power-IsListed event
observe-IsListed (wifi event payload) s =
    if-IsListed (str_eq event "SSIDChange") _ _ (refl, tt)
      (if-IsListed (str_eq event "linkChange") _ _ (refl, tt) tt)
observe-IsListed (audio event) s = audio-IsListed event
observe-IsListed (battery source levels) s =
    if-IsListed (str_eq source s.previous_power_source) _ _ (refl, tt) (refl, (refl, tt))
observe-IsListed (clipboard is_changed payload) s =
    if-IsListed (s.clipboard_active && is_changed) _ _ (refl, tt) tt

observe_all-IsListed : (os : List Observation) (s : Watched) → All IsListed (observe_all os s).0
unfolding observe_all
observe_all-IsListed [] s = tt
observe_all-IsListed (o ∷ os) s =
    let (es, s') = observe o s in
    All-append IsListed es (observe_all os s').0 (observe-IsListed o s) (observe_all-IsListed os s')

-- Whatever the watchers report, each event that they emit is one of the server's catalog, and the
-- client has a class of its own for it.
pub observe_all-IsTyped :
    (os : List Observation) (s : Watched)
    → All
        (λ (e : Emission). (is_member e.name server_events ≡ true) × IsTyped e.name)
        (observe_all os s).0
observe_all-IsTyped os s =
    All-map IsListed (λ (e : Emission). (is_member e.name server_events ≡ true) × IsTyped e.name)
      (λ e h. (h, is_member-All IsTyped e.name server_events server_events-IsTyped h))
      (observe_all os s).0 (observe_all-IsListed os s)
