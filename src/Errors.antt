-- ===== src/Errors.antt =====
-- The exception hierarchy of python-client/src/hammerspoon_macapi/exceptions.py. An exception is
-- a value: its class and what its constructor was given. The texts that are formatted from those
-- arguments are not kept.
pub mod Rpc
use macpony.Prelude.{ℕ, String, Bool, true, false, ◌||◌, Option, none, some, List, [], ◌∷◌}
use macpony.Prelude.Dict.{Dict, lookup}
use macpony.Prelude.Int.{ℤ}

-- The classes, and the built-in ones that the client raises or catches.
pub data ErrorClass : Type 0 where
  mac_api_error connection_error connection_lost_error protocol_error : ErrorClass
  protocol_version_error server_capability_error rpc_error rpc_timeout_error : ErrorClass
  method_not_found_error invalid_params_error feature_disabled_error : ErrorClass
  app_not_found_error window_not_found_error screen_not_found_error : ErrorClass
  permission_required_error : ErrorClass
  value_error os_error cancelled_error recursion_error : ErrorClass

-- The base class that each class statement names; `none` for those outside the hierarchy.
unfoldable pub base : ErrorClass → Option ErrorClass
base connection_error = some mac_api_error
base connection_lost_error = some connection_error
base protocol_error = some mac_api_error
base protocol_version_error = some protocol_error
base server_capability_error = some protocol_error
base rpc_error = some mac_api_error
base rpc_timeout_error = some mac_api_error
base method_not_found_error = some rpc_error
base invalid_params_error = some rpc_error
base feature_disabled_error = some rpc_error
base app_not_found_error = some rpc_error
base window_not_found_error = some rpc_error
base screen_not_found_error = some rpc_error
base permission_required_error = some rpc_error
base _ = none

-- Why a `ProtocolError` was raised, in place of its text.
pub data Reason : Type 0 where
  oversized_line invalid_json not_an_object unknown_type invalid_result : Reason
  invalid_message : String → Reason
  no_error_information : String → Reason
  server_reported : String → String → Reason

-- Why a `ConnectionError` or a `ConnectionLostError` was raised.
pub data Cause : Type 0 where
  not_connected is_closing initial_failed handshake_failed unable_to_connect : Cause
  connection_closed socket_changed write_failed peer_closed transport_failed : Cause

pub data Exception : Type 0 where
  connection : Cause → Exception
  connection_lost : Cause → Exception
  protocol : Reason → Exception
  protocol_version : ℕ → ℤ → Exception
  server_capability : Exception
  rpc : ErrorClass → String → String → Exception
  rpc_timeout : String → Exception
  builtin : ErrorClass → Exception

-- `type(exc)`
unfoldable pub class_of : Exception → ErrorClass
class_of (connection c) = connection_error
class_of (connection_lost c) = connection_lost_error
class_of (protocol r) = protocol_error
class_of (protocol_version c s) = protocol_version_error
class_of server_capability = server_capability_error
class_of (rpc c code message) = c
class_of (rpc_timeout m) = rpc_timeout_error
class_of (builtin c) = c

-- `_RPC_ERROR_TYPES`
abbrev pub rpc_error_types : Dict ErrorClass
rpc_error_types =
    ("METHOD_NOT_FOUND", method_not_found_error)
    ∷ ("INVALID_PARAMS", invalid_params_error)
    ∷ ("FEATURE_DISABLED", feature_disabled_error)
    ∷ ("APP_NOT_FOUND", app_not_found_error)
    ∷ ("WINDOW_NOT_FOUND", window_not_found_error)
    ∷ ("SCREEN_NOT_FOUND", screen_not_found_error)
    ∷ ("PERMISSION_REQUIRED", permission_required_error)
    ∷ []

-- `_RPC_ERROR_TYPES.get(code, RPCError)`
unfoldable pub error_type : String → ErrorClass
error_type code = elim (lookup code rpc_error_types) [ none ↦ rpc_error | some c ↦ c ]

unfoldable pub rpc_exception : String → String → Exception
unfolding error_type
rpc_exception code message = rpc (error_type code) code message

-- What a call returns, or the exception that it raises.
pub data Outcome {ℓ} (A : Type ℓ) : Type ℓ where
  returned : A → Outcome A
  raised : Exception → Outcome A
