-- ===== src/Driver.antt =====
-- sidecar/pkg/reconciler/driver.go: what is known of the paired driver, and which of its errors are
-- retried. `validation.IsDNS1035Label` and `strings.Split` are parameters.
pub mod Laws
use Prim.Native.String.{len}
use mathlib.Core.Logic.{ite}
use native.Mathlib.Decide.{dec_lt, ℕ_discrete}
use mathlib.Core.Path.{◌≡◌}
use cosi.Base.{String, ℕ, ◌<◌, Bool, true, false, List, [], ◌∷◌, ◌++◌, ◌==◌, ◌||◌, if◌then◌else◌}
use cosi.Base.Lists.{is_empty}
use cosi.Errors.{Error, errorf, wrapf, Result, ok, err, Code}
use cosi.Errors.{
  canceled, unknown, invalid_argument, deadline_exceeded, grpc_not_found, grpc_already_exists,
  permission_denied, resource_exhausted, failed_precondition, aborted, out_of_range, unimplemented,
  internal, unavailable, data_loss, unauthenticated,
}
use cosi.Rpc.{ProtocolType, unknown_protocol, s3, azure, gcs, unnamed_protocol}

pub record DriverInfo : Type 0 where
  pub name : String
  pub supported_protocols : List ProtocolType

-- `==` on `ObjectProtocol_Type`
unfoldable pub same_protocol : ProtocolType → ProtocolType → Bool
same_protocol unknown_protocol unknown_protocol = true
same_protocol s3 s3 = true
same_protocol azure azure = true
same_protocol gcs gcs = true
same_protocol (unnamed_protocol m) (unnamed_protocol n) = ite (ℕ_discrete m n) true false
same_protocol _ _ = false

-- The loop of `SupportsProtocol`, and membership in the set `seen`.
unfoldable pub supports : List ProtocolType → ProtocolType → Bool
unfolding same_protocol
supports [] p = false
supports (sp ∷ sps) p = if same_protocol sp p then true else supports sps p

-- `rpcErrorIsRetryable`: a code that is not named is retried.
unfoldable pub rpc_error_is_retryable : Code → Bool
rpc_error_is_retryable invalid_argument = false
rpc_error_is_retryable permission_denied = true
rpc_error_is_retryable grpc_already_exists = false
rpc_error_is_retryable aborted = true
rpc_error_is_retryable unimplemented = false
rpc_error_is_retryable unauthenticated = true
rpc_error_is_retryable _ = true

-- The loop of `validateAndParseProtocols`: `out` is also the set of those seen.
unfoldable pub parse_protocols : List ProtocolType → List ProtocolType → Result (List ProtocolType)
unfolding supports
parse_protocols out [] = ok out
parse_protocols out (t ∷ ts) =
    let rest = parse_protocols (out ++ t ∷ []) ts in
    if same_protocol t unknown_protocol
    then err (errorf "object protocol %q is unknown" [])
    else if supports out t
    then err (errorf "object protocol" [])
    else rest

-- `validateAndParseProtocols`
unfoldable pub validate_and_parse_protocols : List ProtocolType → Result (List ProtocolType)
unfolding parse_protocols
validate_and_parse_protocols ps =
    if is_empty ps
    then err (errorf "at least one object protocol must be supported" [])
    else parse_protocols [] ps

module _ (is_dns1035_label : String → List String) (split_dots : String → List String) where
  unfoldable pub label_errors : List String → List String
  label_errors [] = []
  label_errors (l ∷ ls) =
      let rest = label_errors ls in if is_empty (is_dns1035_label l) then rest else l ∷ rest

  -- `validateDriverName`. The message names the errors only.
  unfoldable pub validate_driver_name : String → Result (Unit {0})
  unfolding label_errors dec_lt
  validate_driver_name n =
      let long = ite (dec_lt 63 (len n)) true false in
      if long || (if is_empty (label_errors (split_dots n)) then false else true)
      then err (errorf "driver name %q is invalid: %v" (n ∷ label_errors (split_dots n)))
      else ok tt

  -- `ValidateAndSetDriverConnectionInfo`
  unfoldable pub validate_driver_info : String → List ProtocolType → Result DriverInfo
  unfolding validate_driver_name validate_and_parse_protocols
  validate_driver_info name protocols = elim (validate_driver_name name) [
    | err e ↦ err (wrapf "driver name is invalid: %w" [] e)
    | ok valid ↦ elim (validate_and_parse_protocols protocols) [
      | err e ↦ err (wrapf "supported protocols list is invalid: %w" [] e)
      | ok parsed ↦ ok (record { name = name; supported_protocols = parsed })
    ]
  ]
