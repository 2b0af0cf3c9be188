-- ===== src/Namespaces/Network.antt =====
-- `NetworkClient` of python-client/src/hammerspoon_macapi/namespaces/network.py.
use macpony.Json.{empty}
use macpony.Models.{instance_of, network_info}
use macpony.Namespaces.{Rpc, rpc}

unfoldable pub get : Rpc
get = rpc "network.get" empty (instance_of network_info)
