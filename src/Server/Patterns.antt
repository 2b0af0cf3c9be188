-- ===== src/Server/Patterns.antt =====
-- The patterns of subscriptions.lua: a name, or a prefix with a `*` behind.
use Prim.Native.String.{String, [], ◌∷◌}
use Prim.Native.Char.{code}
use text.Mathlib.Text.{starts_with}
use macpony.Prelude.{Bool, true, false, ◌&&◌, ◌==◌, str_eq, if◌then◌else◌}

-- `pattern:sub(-1) == "*"`
unfoldable pub has_star : String → Bool
has_star [] = false
has_star (c ∷ []) = code c == 42
has_star (c ∷ d ∷ s) = has_star (d ∷ s)

-- `pattern:sub(1, -2)`
unfoldable pub drop_last : String → String
drop_last [] = ""
drop_last (c ∷ []) = ""
drop_last (c ∷ d ∷ s) = c ∷ drop_last (d ∷ s)

-- The pattern is the name, or a prefix of it with a `*` behind.
unfoldable pub is_match : String → String → Bool
unfolding has_star drop_last
is_match pattern event_name =
    if str_eq pattern event_name
    then true
    else has_star pattern && starts_with event_name (drop_last pattern)
