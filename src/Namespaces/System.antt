-- ===== src/Namespaces/System.antt =====
-- `SystemClient` of python-client/src/hammerspoon_macapi/namespaces/system.py.
use macpony.Json.{empty}
use macpony.Models.{instance_of, system_info, system_status, capabilities as capabilities_decls}
use macpony.Namespaces.{Rpc, rpc, command}

unfoldable pub info : Rpc
info = rpc "system.info" empty (instance_of system_info)

unfoldable pub status : Rpc
status = rpc "system.status" empty (instance_of system_status)

unfoldable pub capabilities : Rpc
capabilities = rpc "system.capabilities" empty (instance_of capabilities_decls)

unfoldable pub user_activity : Rpc
user_activity = command "system.userActivity" empty

unfoldable pub lock : Rpc
lock = command "system.lock" empty

unfoldable pub start_screensaver : Rpc
start_screensaver = command "system.screensaver" empty
