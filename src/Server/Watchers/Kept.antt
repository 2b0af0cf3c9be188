-- ===== src/Server/Watchers/Kept.antt =====
-- What the watchers of hammerspoon/macapi/watchers.lua keep: the state of state.lua, the frames of
-- windows and the screens, and the functions on them.
use macpony.Prelude.{
  ℕ, suc, ◌*◌, ◌^◌, String, Bool, true, false, not, Option, none, some, List, [], ◌∷◌, ◌++◌, ◌==◌,
  if◌then◌else◌,
}
use macpony.Prelude.Dict.{Dict, lookup, insert}
use macpony.Prelude.Int.{pos, negsuc}
use macpony.Json.{Float, finite, infinity, neg_infinity, Json, str, obj, Fields, empty, field}

-- A call of `eventbus.emit`, with `options.coalesce`.
pub record Emission : Type 0 where
  pub name : String
  pub payload : Json
  pub coalesced : Bool

abbrev pub emits : String → Json → List Emission
emits name payload = record { name = name; payload = payload; coalesced = false } ∷ []

-- What `screen_event_data` returns, apart from the id, by which the tables are keyed.
pub record ScreenData : Type 0 where
  pub uuid : Option String
  pub name : String

-- The variables of state.lua.
pub record Status : Type 0 where
  pub is_locked : Bool
  pub screens_sleeping : Bool
  pub screensaver : Bool
  pub is_sleeping : Bool

-- A window as `window_event_data` sees it: its id, the size of its frame, and the event's data.
pub record Window : Type 0 where
  pub id : ℕ
  pub width : Float
  pub height : Float
  pub payload : Json

-- `previous_frames`, `known_screens`, `previous_power_source`, `clipboard_active` and the state.
pub record Watched : Type 0 where
  pub previous_frames : List (ℕ × Float × Float)
  pub known_screens : Dict ScreenData
  pub previous_power_source : String
  pub clipboard_active : Bool
  pub status : Status

-- `reset` of state.lua
abbrev pub no_status : Status
no_status = record {
  is_locked = false;
  screens_sleeping = false;
  screensaver = false;
  is_sleeping = false;
}

-- `a == b` of two numbers
unfoldable pub same_float : Float → Float → Bool
same_float (finite (pos m) k) (finite (pos n) l) = m * 2 ^ l == n * 2 ^ k
same_float (finite (negsuc m) k) (finite (negsuc n) l) = suc m * 2 ^ l == suc n * 2 ^ k
same_float infinity infinity = true
same_float neg_infinity neg_infinity = true
same_float _ _ = false

abbrev pub frame_of : ℕ → List (ℕ × Float × Float) → Option (Float × Float)
frame_of id [] = none
frame_of id ((i, w, h) ∷ frames) = if i == id then some (w, h) else frame_of id frames

-- `previous_frames[id] = nil`
abbrev pub without_frame : ℕ → List (ℕ × Float × Float) → List (ℕ × Float × Float)
without_frame id [] = []
without_frame id ((i, w, h) ∷ frames) =
    if i == id then frames else (i, w, h) ∷ without_frame id frames

abbrev pub is_resized : Option (Float × Float) → Window → Bool
is_resized none window = false
is_resized (some (w, h)) window =
    if same_float w window.width then not (same_float h window.height) else true

-- `emit_window_change("window.moved", window)`, the only call of that function.
unfoldable pub window_moved : Window → Watched → List Emission × Watched
unfolding same_float
window_moved window s =
    let previous = frame_of window.id s.previous_frames in
    let name = if is_resized previous window then "window.resized" else "window.moved" in
    (
      record { name = name; payload = window.payload; coalesced = true } ∷ [],
      record s {
        previous_frames =
            (window.id, window.width, window.height) ∷ without_frame window.id s.previous_frames;
      },
    )

abbrev pub uuid_field : Option String → Fields → Fields
uuid_field none fs = fs
uuid_field (some uuid) fs = field "uuid" (str uuid) fs

-- `screen_event_data`
abbrev pub screen_payload : String → ScreenData → Json
screen_payload id d =
    obj (field "screen_id" (str id) (uuid_field d.uuid (field "name" (str d.name) empty)))

abbrev pub is_known : String → Dict ScreenData → Bool
is_known id screens = elim (lookup id screens) [ none ↦ false | some d ↦ true ]

-- The emissions for the screens of one table that another one has not.
unfoldable pub missing_from : String → Dict ScreenData → Dict ScreenData → List Emission
missing_from name others [] = []
missing_from name others ((id, d) ∷ screens) =
    if is_known id others
    then missing_from name others screens
    else record { name = name; payload = screen_payload id d; coalesced = false }
      ∷ missing_from name others screens

-- The table of the screens that `hs.screen.allScreens()` returns.
unfoldable pub screen_table : List (String × ScreenData) → Dict ScreenData → Dict ScreenData
screen_table [] table = table
screen_table ((id, d) ∷ screens) table = screen_table screens (insert id d table)

-- `screen_topology`; `listed` is the result of `screens.list`.
unfoldable pub screen_topology :
    List (String × ScreenData) → Json → Watched → List Emission × Watched
unfolding missing_from screen_table
screen_topology screens listed s =
    let current = screen_table screens [] in
    (
      missing_from "screen.connected" s.known_screens current
          ++ (missing_from "screen.disconnected" current s.known_screens
              ++ emits "screen.changed" (obj (field "screens" listed empty))),
      record s { known_screens = current },
    )
