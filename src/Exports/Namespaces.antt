-- ===== src/Exports/Namespaces.antt =====
-- python-client/src/hammerspoon_macapi/namespaces/__init__.py: the names that it imports, and those
-- that it exports.
use macpony.Prelude.{String, ◌≡◌, refl, true, List, [], ◌∷◌, all-All, ◌↔◌}
use macpony.Prelude.Dict.{is_member, is_member-All}
use macpony.Exports.{bound_names}

-- The imported names, by the module that they are imported from.
abbrev namespace_imports : List (String × List String)
namespace_imports =
    (".apps", "AppsClient" ∷ [])
    ∷ (".audio", "AudioClient" ∷ [])
    ∷ (".clipboard", "ClipboardClient" ∷ [])
    ∷ (".events", "EventsClient" ∷ "EventSubscription" ∷ [])
    ∷ (".input", "InputClient" ∷ [])
    ∷ (".network", "NetworkClient" ∷ [])
    ∷ (".screens", "ScreensClient" ∷ [])
    ∷ (".system", "SystemClient" ∷ [])
    ∷ (".windows", "WindowsClient" ∷ [])
    ∷ []

-- `__all__`
abbrev namespace_exported : List String
namespace_exported =
    "AppsClient" ∷ "AudioClient" ∷ "ClipboardClient" ∷ "EventSubscription" ∷ "EventsClient"
    ∷ "InputClient" ∷ "NetworkClient" ∷ "ScreensClient" ∷ "SystemClient" ∷ "WindowsClient" ∷ []

-- The subpackage exports exactly the names that it imports.
namespace_exported-imports :
    (name : String)
    → (is_member name namespace_exported ≡ true)
      ↔ (is_member name (bound_names namespace_imports) ≡ true)
unfolding is_member
namespace_exported-imports name = (
  is_member-All (λ n. is_member n (bound_names namespace_imports) ≡ true) name namespace_exported
      (all-All (λ n. is_member n (bound_names namespace_imports)) namespace_exported refl),
  is_member-All (λ n. is_member n namespace_exported ≡ true) name (bound_names namespace_imports)
      (all-All (λ n. is_member n namespace_exported) (bound_names namespace_imports) refl),
)
