-- ===== src/Errors/Rpc.antt =====
-- `rpc_exception` builds the most specific `RPCError`.
use macpony.Prelude.{String, ◌≡◌, refl, sym, ap, ◌∙◌, ◌≢◌, ◌⊎◌, inl, inr, some, arith, eq_iff}
use macpony.Prelude.Dict.{lookup}
use mathlib.Core.Path.{subst}
use macpony.Errors.{
  method_not_found_error, invalid_params_error, feature_disabled_error, app_not_found_error,
  window_not_found_error, screen_not_found_error, permission_required_error, error_type, ErrorClass,
  base, class_of, rpc, rpc_error, mac_api_error, rpc_exception,
}

-- `issubclass(c, d)`: `d` is reached from `c` through the class statements.
pub data IsSubclass (d : ErrorClass) : ErrorClass → Type 0 where
  same : IsSubclass d d
  derived : {c e : ErrorClass} → base c ≡ some e → IsSubclass d e → IsSubclass d c

error_type-base :
    (code : String) → (error_type code ≡ rpc_error) ⊎ (base (error_type code) ≡ some rpc_error)
unfolding error_type base lookup
error_type-base code = ground arith

-- Whatever code the server sends, `except RPCError` and `except MacAPIError` catch the exception,
-- and it carries the server's code and message.
pub rpc_exception-IsSubclass :
    (code message : String)
    → IsSubclass rpc_error (class_of (rpc_exception code message))
      × IsSubclass mac_api_error (class_of (rpc_exception code message))
      × (rpc_exception code message ≡ rpc (class_of (rpc_exception code message)) code message)
unfolding rpc_exception class_of base
rpc_exception-IsSubclass code message = elim (error_type-base code) [
  | inl e ↦ (
    subst (IsSubclass rpc_error) (sym e) same,
    subst (IsSubclass mac_api_error) (sym e) rpc,
    refl,
  )
  | inr e ↦ (derived e same, derived e rpc, refl)
]
  where
    rpc : IsSubclass mac_api_error rpc_error
    rpc = derived {e = mac_api_error} refl same

-- The code that the table lists a class under.
code_of : ErrorClass → String
code_of method_not_found_error = "METHOD_NOT_FOUND"
code_of invalid_params_error = "INVALID_PARAMS"
code_of feature_disabled_error = "FEATURE_DISABLED"
code_of app_not_found_error = "APP_NOT_FOUND"
code_of window_not_found_error = "WINDOW_NOT_FOUND"
code_of screen_not_found_error = "SCREEN_NOT_FOUND"
code_of permission_required_error = "PERMISSION_REQUIRED"
code_of _ = ""

code_of-error_type :
    (code : String) → error_type code ≢ rpc_error → code_of (error_type code) ≡ code
unfolding code_of error_type lookup
code_of-error_type code h = ground (
  arith,
  eq_iff "METHOD_NOT_FOUND" code,
  eq_iff "INVALID_PARAMS" code,
  eq_iff "FEATURE_DISABLED" code,
  eq_iff "APP_NOT_FOUND" code,
  eq_iff "WINDOW_NOT_FOUND" code,
  eq_iff "SCREEN_NOT_FOUND" code,
  eq_iff "PERMISSION_REQUIRED" code,
)

-- Two different codes never give the same specific exception class.
class_of-rpc_exception_inj :
    (a b m n : String)
    → class_of (rpc_exception a m) ≢ rpc_error
    → class_of (rpc_exception a m) ≡ class_of (rpc_exception b n)
    → a ≡ b
unfolding rpc_exception class_of
class_of-rpc_exception_inj a b m n h e =
    sym (code_of-error_type a h) ∙ ap code_of e ∙ code_of-error_type b (λ k. h (e ∙ k))
