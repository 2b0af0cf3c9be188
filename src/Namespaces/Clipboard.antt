-- ===== src/Namespaces/Clipboard.antt =====
-- `ClipboardClient` of python-client/src/hammerspoon_macapi/namespaces/clipboard.py.
use macpony.Prelude.{String}
use macpony.Json.{str, empty, field}
use macpony.Models.{instance_of, clipboard_text}
use macpony.Namespaces.{Rpc, rpc, command}

unfoldable pub get : Rpc
get = rpc "clipboard.get" empty (instance_of clipboard_text)

unfoldable pub set : String → Rpc
set text = command "clipboard.set" (field "text" (str text) empty)
