-- ===== src/Server/Subscriptions.antt =====
-- The subscription registry of hammerspoon/macapi/subscriptions.lua. The Lua table is a dict from
-- event names to their `include_data`; a Lua value is a `Json`, with `null` for nil.
use Prim.Native.String.{compare}
use Prim.Native.Nat.{Ordering}
use macpony.Prelude.{String, Bool, true, false, Option, none, some, [], ◌∷◌, if◌then◌else◌}
use macpony.Prelude.Dict.{Dict, insert, erase}
use macpony.Json.{Json, null, bool, str, arr, obj, Items, nil, cons, Fields, empty, field}
use macpony.Server.Patterns.{is_match}
use macpony.Server.Wire.{index}
use macpony.Server.Dispatch.{Handled, raises, returns, fails}

-- `item.include_data ~= false`
abbrev pub is_not_false : Json → Bool
is_not_false (bool false) = false
is_not_false _ = true

-- `normalize` of a table
abbrev normalize_fields : Fields → Option (String × Bool)
normalize_fields fs = elim (index "event" fs) [
  | str event ↦ some (event, is_not_false (index "include_data" fs))
  | _ ↦ none
]

abbrev pub normalize : Json → Option (String × Bool)
normalize (str event) = some (event, true)
normalize (obj fs) = normalize_fields fs
normalize _ = none

-- `ipairs(params.subscriptions)`, with `none` where that is no table; an object has no items.
abbrev pub items_of : Json → Option Items
items_of (obj fs) = elim (index "subscriptions" fs) [
  | arr items ↦ some items
  | obj more ↦ some nil
  | _ ↦ none
]
items_of _ = none

-- The loop of `subscribe`: whether it came to its end, and the table. `ipairs` stops at a nil.
unfoldable pub add_items : Items → Dict Bool → Bool × Dict Bool
add_items nil registry = (true, registry)
add_items (cons null items) registry = (true, registry)
add_items (cons item items) registry = elim (normalize item) [
  | none ↦ (false, registry)
  | some (event, include_data) ↦ add_items items (insert event include_data registry)
]

-- How the loop of `unsubscribe` ends: it raises at an item that has no fields at all.
pub data Removal : Type 0 where
  completed invalid_item raised_error : Removal

abbrev event_of : Fields → Option String
event_of fs = elim (index "event" fs) [ str event ↦ some event | _ ↦ none ]

-- The loop of `unsubscribe`.
unfoldable pub remove_items : Items → Dict Bool → Removal × Dict Bool
remove_items nil registry = (completed, registry)
remove_items (cons null items) registry = (completed, registry)
remove_items (cons (str event) items) registry = remove_items items (erase event registry)
remove_items (cons (arr more) items) registry = (invalid_item, registry)
remove_items (cons (obj fs) items) registry = elim (event_of fs) [
  | none ↦ (invalid_item, registry)
  | some event ↦ remove_items items (erase event registry)
]
remove_items (cons _ items) registry = (raised_error, registry)

-- `a.event < b.event`
abbrev pub is_before : String → String → Bool
is_before a b = elim (compare a b) [ Ordering.lt ↦ true | _ ↦ false ]

unfoldable pub insert_sorted : String → Bool → Dict Bool → Dict Bool
insert_sorted j v [] = (j, v) ∷ []
insert_sorted j v ((i, w) ∷ d) =
    if is_before j i then (j, v) ∷ (i, w) ∷ d else (i, w) ∷ insert_sorted j v d

-- `table.sort` of the entries, which come from `pairs` in some order.
unfoldable pub sorted : Dict Bool → Dict Bool
unfolding insert_sorted
sorted [] = []
sorted ((j, v) ∷ d) = insert_sorted j v (sorted d)

-- The list of the entries, as JSON.
unfoldable pub entry_items : Dict Bool → Items
entry_items [] = nil
entry_items ((event, include_data) ∷ d) =
    cons (obj (field "event" (str event) (field "include_data" (bool include_data) empty)))
      (entry_items d)

abbrev invalid : String → Handled
invalid message = fails (some "INVALID_PARAMS") (some message)

-- `M.subscribe`
unfoldable pub subscribe : Json → Dict Bool → Handled × Dict Bool
unfolding add_items sorted entry_items
subscribe params registry = elim (items_of params) [
  | none ↦ (invalid "subscriptions must be an array", registry)
  | some items ↦
      let (is_valid, registry') = add_items items registry in
      if is_valid
      then (returns (arr (entry_items (sorted registry'))), registry')
      else (invalid "invalid event subscription", registry')
]

abbrev removal_result : Removal → Handled
removal_result completed = returns null
removal_result invalid_item = invalid "invalid event subscription"
removal_result raised_error = raises "attempt to index a value"

-- `M.unsubscribe`
unfoldable pub unsubscribe : Json → Dict Bool → Handled × Dict Bool
unfolding remove_items
unsubscribe params registry = elim (items_of params) [
  | none ↦ (invalid "subscriptions must be an array", registry)
  | some items ↦
      let (removal, registry') = remove_items items registry in (removal_result removal, registry')
]

-- `M.unsubscribe_all`
unfoldable pub unsubscribe_all : Dict Bool → Handled × Dict Bool
unsubscribe_all registry = (returns null, [])

-- `M.get`
unfoldable pub get_subscriptions : Dict Bool → Handled × Dict Bool
unfolding sorted entry_items
get_subscriptions registry = (returns (arr (entry_items (sorted registry))), registry)

-- `M.matches`
unfoldable pub matches : String → Dict Bool → Bool
unfolding is_match
matches event_name [] = false
matches event_name ((pattern, d) ∷ registry) =
    if is_match pattern event_name then true else matches event_name registry

-- `M.include_data`, for the entries in the order of `pairs`, which Lua leaves open.
unfoldable pub include_data : String → Dict Bool → Bool
unfolding is_match
include_data event_name [] = true
include_data event_name ((pattern, d) ∷ registry) =
    if is_match pattern event_name then d else include_data event_name registry
