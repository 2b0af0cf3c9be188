-- ===== src/Server/Wire.antt =====
-- hammerspoon/macapi/protocol.lua: the validation of a request and the response tables. A Lua value
-- is a `Json`, with `null` for nil; `hs_decode` is what `hs.json.decode` makes of a text, with
-- `none` for an error.
use macpony.Prelude.{
  ℕ, ◌^◌, String, Bool, true, false, not, Option, none, some, List, [], ◌∷◌, ◌++◌, zero, suc, ◌-◌,
  length, ltb, ◌==◌, if◌then◌else◌, str_eq,
}
use macpony.Prelude.Int.{pos}
use macpony.Constants.{newline_byte, max_line_bytes}
use macpony.Json.{
  finite, Json, null, bool, int, float, str, arr, obj, Fields, empty, field, get, is_text,
}

-- A request that was accepted.
pub record Request : Type 0 where
  pub id : String
  pub method : String
  pub params : Json

-- Why a line was refused.
pub data Refusal : Type 0 where
  too_long invalid_json not_an_object unsupported_version not_a_request : Refusal
  no_id no_method no_params : Refusal

-- `(request, error, id)`
pub data Decoded : Type 0 where
  accepted : Request → Decoded
  refused : Refusal → Option String → Decoded

-- `line:gsub("\n$", "")`
unfoldable pub strip_newline : List ℕ → List ℕ
strip_newline [] = []
strip_newline (b ∷ []) = if b == newline_byte then [] else b ∷ []
strip_newline (b ∷ c ∷ bs) = b ∷ strip_newline (c ∷ bs)

-- `payload[key]`; a JSON array has no text keys.
abbrev pub index : String → Fields → Json
index key fs = elim (get key fs) [ none ↦ null | some j ↦ j ]

abbrev pub is_table : Json → Bool
is_table (arr js) = true
is_table (obj fs) = true
is_table _ = false

-- `payload.v == 1`, also for the float 1.0
abbrev pub is_version : Json → Bool
is_version (int (pos n)) = n == 1
is_version (float (finite (pos m) k)) = m == 2 ^ k
is_version _ = false

-- A text that is not empty.
abbrev pub non_empty : Json → Option String
non_empty (str s) = if str_eq s "" then none else some s
non_empty _ = none

-- `if payload.params == nil then payload.params = {} end`
abbrev pub or_table : Json → Json
or_table null = obj empty
or_table j = j

-- The checks of the fields, from the one of the version on.
unfoldable pub validate_request : Fields → Decoded
validate_request fs =
    let id = non_empty (index "id" fs) in
    if not (is_version (index "v" fs))
    then refused unsupported_version id
    else if not (is_text "request" (index "type" fs))
    then refused not_a_request id
    else elim id [
      | none ↦ refused no_id none
      | some i ↦ elim (non_empty (index "method" fs)) [
        | none ↦ refused no_method (some i)
        | some m ↦
            let params = or_table (index "params" fs) in
            if is_table params
            then accepted (record { id = i; method = m; params = params })
            else refused no_params (some i)
      ]
    ]

-- What follows `hs_json.decode`: nil and false are refused as no value.
unfoldable pub validate_payload : Option Json → Decoded
unfolding validate_request
validate_payload none = refused invalid_json none
validate_payload (some null) = refused invalid_json none
validate_payload (some (bool false)) = refused invalid_json none
validate_payload (some (obj fs)) = validate_request fs
validate_payload (some (arr js)) = validate_request empty
validate_payload (some _) = refused not_an_object none

-- `M.decode`
unfoldable pub decode : (List ℕ → Option Json) → List ℕ → Decoded
unfolding strip_newline validate_payload
decode hs_decode line =
    if ltb max_line_bytes (length line)
    then refused too_long none
    else validate_payload (hs_decode (strip_newline line))

-- A table has no entry for nil.
abbrev pub entry : String → Json → Fields → Fields
entry k null fs = fs
entry k j fs = field k j fs

-- `M.success`
unfoldable pub success : String → Json → Fields
success id result = field "v" (int (pos 1)) (
    field "id" (str id)
      (field "type" (str "response") (field "ok" (bool true) (entry "result" result empty))))

-- `M.failure`
unfoldable pub failure : String → String → String → Fields
failure id code message = field "v" (int (pos 1)) (
    field "id" (str id) (
      field "type" (str "response") (
        field "ok" (bool false) (
          field "error" (obj (field "code" (str code) (field "message" (str message) empty)))
            empty))))

abbrev pub or_nil : Option String → Json
or_nil none = null
or_nil (some s) = str s

-- `M.protocol_failure`
unfoldable pub protocol_failure : Option String → String → Fields
protocol_failure id message = field "v" (int (pos 1)) (
    entry "id" (or_nil id) (
      field "type" (str "protocol_error")
        (field "code" (str "PROTOCOL_ERROR") (field "message" (str message) empty))))

-- The text of the private marker `{"__macapi_empty_object__":true}`.
abbrev pub marker : List ℕ
marker =
    123 ∷ 34 ∷ 95 ∷ 95 ∷ 109 ∷ 97 ∷ 99 ∷ 97 ∷ 112 ∷ 105 ∷ 95 ∷ 101 ∷ 109 ∷ 112 ∷ 116 ∷ 121 ∷ 95
    ∷ 111 ∷ 98 ∷ 106 ∷ 101 ∷ 99 ∷ 116 ∷ 95 ∷ 95 ∷ 34 ∷ 58 ∷ 116 ∷ 114 ∷ 117 ∷ 101 ∷ 125 ∷ []

abbrev pub has_prefix : List ℕ → List ℕ → Bool
has_prefix [] bs = true
has_prefix (p ∷ ps) [] = false
has_prefix (p ∷ ps) (b ∷ bs) = if p == b then has_prefix ps bs else false

-- `encoded:gsub(marker, "{}")`; the number counts the bytes of a match that are still to be skipped.
unfoldable pub replace_marker : ℕ → List ℕ → List ℕ
replace_marker skip [] = []
replace_marker (suc skip) (b ∷ bs) = replace_marker skip bs
replace_marker zero (b ∷ bs) =
    let is_match = has_prefix marker (b ∷ bs) in
    let rest = replace_marker (if is_match then length marker - 1 else 0) bs in
    if is_match then 123 ∷ 125 ∷ rest else b ∷ rest

-- `M.encode`; `hs_encode` is `hs.json.encode`, with `none` for an error.
unfoldable pub encode : (Fields → Option (List ℕ)) → Fields → Option (List ℕ)
unfolding replace_marker
encode hs_encode message = elim (hs_encode message) [
  | none ↦ none
  | some text ↦ some (replace_marker 0 text ++ newline_byte ∷ [])
]
