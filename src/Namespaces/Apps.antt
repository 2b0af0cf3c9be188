-- ===== src/Namespaces/Apps.antt =====
-- `AppsClient` of python-client/src/hammerspoon_macapi/namespaces/apps.py.
use macpony.Prelude.{String}
use macpony.Json.{str, Fields, empty, field}
use macpony.Pydantic.{list_of, optional}
use macpony.Models.{instance_of, application_info}
use macpony.Namespaces.{Rpc, rpc, command}

-- `{"bundle_id": bundle_id}`
abbrev bundle : String → Fields
bundle bundle_id = field "bundle_id" (str bundle_id) empty

unfoldable pub list : Rpc
list = rpc "apps.list" empty (list_of (instance_of application_info))

unfoldable pub frontmost : Rpc
frontmost = rpc "apps.frontmost" empty (optional (instance_of application_info))

unfoldable pub open_app : String → Rpc
open_app bundle_id = rpc "apps.open" (bundle bundle_id) (instance_of application_info)

unfoldable pub focus : String → Rpc
focus bundle_id = command "apps.focus" (bundle bundle_id)

unfoldable pub hide : String → Rpc
hide bundle_id = command "apps.hide" (bundle bundle_id)

unfoldable pub unhide : String → Rpc
unhide bundle_id = command "apps.unhide" (bundle bundle_id)

unfoldable pub quit : String → Rpc
quit bundle_id = command "apps.quit" (bundle bundle_id)
