-- ===== src/Server/Watchers/Screens.antt =====
-- The events about screens against the screens that are there.
use macpony.Prelude.{
  String, ◌≡◌, refl, ap, ◌∙◌, Bool, true, false, inl, inr, Bool-cases, none, some, List, [], ◌∷◌,
  ◌++◌, arith, str_eq, eq_iff, if◌then◌else◌,
}
use macpony.Prelude.Dict.{Dict, lookup}
use macpony.Json.{Json, obj, field, empty, get}
use macpony.Pydantic.{◌>>=◌}
use macpony.Protocol.{as_text}
use macpony.Server.Watchers.{
  Emission, emits, ScreenData, Watched, screen_payload, is_known, missing_from, screen_table,
  screen_topology, Observation, app, window, moved, destroyed, screens, power, wifi, audio, battery,
  clipboard, observe, observe_all, WindowEvent, created, focused, minimized, unminimized,
  fullscreened, unfullscreened, window_event_name, frame_of, is_resized,
}

-- The event is about this screen.
abbrev pub is_about : String → Emission → Bool
is_about id e = elim e.payload [
  | obj fs ↦ elim (get "screen_id" fs >>= as_text) [ none ↦ false | some i ↦ str_eq i id ]
  | _ ↦ false
]

-- Is the screen there, for a client that knew whether it was and has received these events?
unfoldable pub present_after : String → List Emission → Bool → Bool
present_after id [] present = present
present_after id (e ∷ es) present = present_after id es (
    if str_eq e.name "screen.connected"
    then (if is_about id e then true else present)
    else if str_eq e.name "screen.disconnected"
    then (if is_about id e then false else present)
    else present)

present_after-append :
    (id : String) (es fs : List Emission) (b : Bool)
    → present_after id (es ++ fs) b ≡ present_after id fs (present_after id es b)
unfolding present_after
present_after-append id [] fs b = refl
present_after-append id (e ∷ es) fs b = present_after-append id es fs _

screen_payload-about :
    (id k : String) (d : ScreenData) (name : String)
    → is_about id (record { name = name; payload = screen_payload k d; coalesced = false })
      ≡ str_eq k id
unfolding get
screen_payload-about id k d name = ground arith

connected_phase :
    (id : String) (others current : Dict ScreenData) (b : Bool)
    → present_after id (missing_from "screen.connected" others current) b
      ≡ (if is_known id current then (if is_known id others then b else true) else b)
unfolding present_after missing_from lookup
connected_phase id others [] b = refl
connected_phase id others ((k, d) ∷ current) b = ground (
  arith,
  eq_iff k id,
  screen_payload-about id k d "screen.connected",
  connected_phase id others current b,
  connected_phase id others current true,
)

disconnected_phase :
    (id : String) (current known : Dict ScreenData) (b : Bool)
    → present_after id (missing_from "screen.disconnected" current known) b
      ≡ (if is_known id known then (if is_known id current then b else false) else b)
unfolding present_after missing_from lookup
disconnected_phase id current [] b = refl
disconnected_phase id current ((k, d) ∷ known) b = ground (
  arith,
  eq_iff k id,
  screen_payload-about id k d "screen.disconnected",
  disconnected_phase id current known b,
  disconnected_phase id current known false,
)

topology_lem :
    (id : String) (all : List (String × ScreenData)) (listed : Json) (s : Watched)
    → let (es, s') = screen_topology all listed s in
      present_after id es (is_known id s.known_screens) ≡ is_known id s'.known_screens
unfolding screen_topology present_after
topology_lem id all listed s =
    let current = screen_table all [] in
    let new = missing_from "screen.connected" s.known_screens current in
    let gone = missing_from "screen.disconnected" current s.known_screens in
    let changed = emits "screen.changed" (obj (field "screens" listed empty)) in
    let b = is_known id s.known_screens in
    present_after-append id new (gone ++ changed) b
    ∙ present_after-append id gone changed (present_after id new b)
    ∙ disconnected_phase id current s.known_screens (present_after id new b)
    ∙ ground (arith, connected_phase id s.known_screens current b)

window_lem :
    (id : String) (event : WindowEvent) (payload : Json) (b : Bool)
    → present_after id (emits (window_event_name event) payload) b ≡ b
unfolding present_after
window_lem id created payload b = refl
window_lem id focused payload b = refl
window_lem id minimized payload b = refl
window_lem id unminimized payload b = refl
window_lem id fullscreened payload b = refl
window_lem id unfullscreened payload b = refl

observe_lem :
    (id : String) (o : Observation) (s : Watched)
    → let (es, s') = observe o s in
      present_after id es (is_known id s.known_screens) ≡ is_known id s'.known_screens
unfolding observe present_after
observe_lem id (app event none) s = refl
observe_lem id (app event (some info)) s = ground arith
observe_lem id (window event payload) s = window_lem id event payload (is_known id s.known_screens)
observe_lem id (moved w) s = elim (Bool-cases (is_resized (frame_of w.id s.previous_frames) w)) [
  | inl e ↦ rw e refl
  | inr e ↦ rw e refl
]
observe_lem id (destroyed w) s = ground arith
observe_lem id (screens all listed) s = topology_lem id all listed s
observe_lem id (power event) s = ground arith
observe_lem id (wifi event payload) s = ground arith
observe_lem id (audio event) s = ground arith
observe_lem id (battery source levels) s = ground arith
observe_lem id (clipboard is_changed payload) s = ground arith

-- The events about screens tell a client which screens there are: after all that the watchers
-- report, a screen counts as present by the events `screen.connected` and `screen.disconnected`
-- that were emitted, in their order, exactly if it is among the screens that the watcher saw last.
pub present_after-observe_all :
    (id : String) (os : List Observation) (s : Watched)
    → let (es, s') = observe_all os s in
      present_after id es (is_known id s.known_screens) ≡ is_known id s'.known_screens
unfolding observe_all present_after
present_after-observe_all id [] s = refl
present_after-observe_all id (o ∷ os) s =
    let (es, s') = observe o s in
    let (fs, s'') = observe_all os s' in
    present_after-append id es fs (is_known id s.known_screens)
    ∙ ap (present_after id fs) (observe_lem id o s)
    ∙ present_after-observe_all id os s'
