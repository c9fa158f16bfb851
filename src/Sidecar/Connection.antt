-- ===== src/Sidecar/Connection.antt =====
-- sidecar/cmd/rpc.go: the connection to the driver, and the driver's info. What gRPC and the tests on
-- texts do is a parameter; of the changes of state, those are given that happen before the timeout.
pub mod Laws
use cosi.Base.{String, Bool, true, false, List, [], ◌∷◌, not, if◌then◌else◌}
use cosi.Errors.{errorf, wrapf, Result, ok, err}
use cosi.Rpc.{ProtocolType}
use cosi.Driver.{DriverInfo, validate_driver_info}

-- `connectivity.State`
pub data State : Type 0 where
  idle connecting ready transient_failure shutdown : State

unfoldable pub is_ready : State → Bool
is_ready ready = true
is_ready _ = false

unfoldable pub is_idle : State → Bool
is_idle idle = true
is_idle _ = false

pub record Transport : Type 0 where
  -- `grpc.NewClient`, with the state of the new client.
  pub new_client : String → Result State
  -- The state after each change that `WaitForStateChange` reports.
  pub changes : List State
  -- The answer to `DriverGetInfo`: the name and the supported protocols.
  pub driver_get_info : Result (String × List ProtocolType)

-- The loop of `connectRpc`: it ends at the first change to `ready`, or with the timeout.
unfoldable pub wait_ready : List State → Result (Unit {0})
unfolding is_ready
wait_ready [] = err (errorf "timed out waiting for RPC client to connect" [])
wait_ready (s ∷ states) = let rest = wait_ready states in if is_ready s then ok tt else rest

-- `connectRpc`
unfoldable pub connect_rpc : Transport → String → Result (Unit {0})
unfolding is_idle wait_ready
connect_rpc grpc endpoint = elim (grpc.new_client endpoint) [
  | err e ↦ err (wrapf "unable to create gRPC client: %w" [] e)
  | ok state ↦
      if not (is_idle state)
      then err (errorf "gRPC client is not idle: %v" [])
      else wait_ready grpc.changes
]

module _ (is_dns1035_label : String → List String) (split_dots : String → List String)
    (has_prefix has_suffix : String → String → Bool) where
  -- `connectRpcAndGetDriverInfo`
  unfoldable pub connect_rpc_and_get_driver_info : Transport → String → Result DriverInfo
  unfolding connect_rpc
  connect_rpc_and_get_driver_info grpc endpoint =
      if not (has_prefix endpoint "unix://")
      then err (errorf "rpc endpoint must be a unix socket prefix 'unix://': %s" (endpoint ∷ []))
      else if not (has_suffix endpoint ".sock")
      then err
          (errorf "rpc endpoint must be a unix socket with extension '.sock': %s" (endpoint ∷ []))
      else elim (connect_rpc grpc endpoint) [
        | err e ↦ err (wrapf "unable to connect to RPC endpoint %q: %w" (endpoint ∷ []) e)
        | ok connected ↦ elim grpc.driver_get_info [
          | err e ↦ err (wrapf "unable to get driver info: %w" [] e)
          | ok (name, protocols) ↦
              elim (validate_driver_info is_dns1035_label split_dots name protocols) [
                | err e ↦ err (wrapf "driver info is invalid: %w" [] e)
                | ok info ↦ ok info
              ]
        ]
      ]
