-- ===== src/Json.antt =====
-- Python values that JSON can carry: `JSONValue` and `JSONObject` of
-- python-client/src/hammerspoon_macapi/protocol.py.
use macpony.Prelude.{
  ℕ, ◌*◌, ◌^◌, String, Bool, true, false, Option, none, some, leb, if◌then◌else◌, str_eq,
}
use macpony.Prelude.Int.{ℤ, pos, negsuc}

-- A Python float: m / 2^k, an infinity or not a number.
pub data Float : Type 0 where
  finite : ℤ → ℕ → Float
  infinity neg_infinity not_a_number : Float

-- `0 <= x`
unfoldable pub is_nonneg : Float → Bool
is_nonneg (finite (pos m) k) = true
is_nonneg (finite (negsuc m) k) = false
is_nonneg infinity = true
is_nonneg neg_infinity = false
is_nonneg not_a_number = false

-- `x <= n`
unfoldable pub is_at_most : Float → ℕ → Bool
is_at_most (finite (pos m) k) n = leb m (n * 2 ^ k)
is_at_most (finite (negsuc m) k) n = true
is_at_most infinity n = false
is_at_most neg_infinity n = true
is_at_most not_a_number n = false

mutual
  pub data Json : Type 0 where
    null : Json
    bool : Bool → Json
    int : ℤ → Json
    float : Float → Json
    str : String → Json
    arr : Items → Json
    obj : Fields → Json

  pub data Items : Type 0 where
    nil : Items
    cons : Json → Items → Items

  -- A dict with text keys, in insertion order.
  pub data Fields : Type 0 where
    empty : Fields
    field : String → Json → Fields → Fields

-- `payload.get(key)`, with `none` for a missing key
unfoldable pub get : String → Fields → Option Json
get k empty = none
get k (field j v fs) = if str_eq j k then some v else get k fs

-- `payload[key] = value`
unfoldable pub put : String → Json → Fields → Fields
put k v empty = field k v empty
put k v (field j w fs) = if str_eq j k then field j v fs else field j w (put k v fs)

-- `value == "text"`
unfoldable pub is_text : String → Json → Bool
is_text t (str s) = str_eq s t
is_text t _ = false

-- `value == []`
unfoldable pub is_empty_list : Json → Bool
is_empty_list (arr nil) = true
is_empty_list _ = false

-- `value is None`
unfoldable pub is_null : Json → Bool
is_null null = true
is_null _ = false
