-- ===== src/Namespaces.antt =====
-- The typed methods of python-client/src/hammerspoon_macapi/namespaces: what each one asks of
-- `MacAPI.call`. The returned value is what `call` returns, so it is not written again.
pub mod Apps
pub mod Audio
pub mod Clipboard
pub mod Input
pub mod Network
pub mod Screens
pub mod System
pub mod Windows
pub mod Ranges
pub mod Server
pub mod Catalog
use macpony.Prelude.{ℕ, String, Option, none, some}
use macpony.Json.{Json, str, Fields, empty, field}
use macpony.Pydantic.{Annotation, none_type}

-- The arguments of `call`: the timeout is in seconds, `none` for the default one, and no
-- parameters stand for an empty dict.
pub record Rpc : Type 0 where
  pub method : String
  pub params : Fields
  pub result_type : Annotation
  pub timeout : Option ℕ

-- `call(method, params, result_type=…)`
abbrev pub rpc : String → Fields → Annotation → Rpc
rpc method params result_type = record {
  method = method;
  params = params;
  result_type = result_type;
  timeout = none;
}

-- `call(method, params, result_type=type(None))`
abbrev pub command : String → Fields → Rpc
command method params = rpc method params none_type
