-- ===== src/Sidecar/Connection/Laws.antt =====
-- When the sidecar gets to know its driver.
use cosi.Base.{String, Bool, true, List, [], ◌∷◌, ◌≡◌, ◌↔◌, ◌⊎◌, arith}
use cosi.Errors.{Result, ok, err}
use cosi.Rpc.{ProtocolType}
use cosi.Driver.{DriverInfo, validate_driver_info}
use cosi.Sidecar.Connection.{
  State, idle, ready, is_idle, is_ready, Transport, wait_ready, connect_rpc,
  connect_rpc_and_get_driver_info,
}

-- The client becomes ready at some change.
abbrev pub IsReached : List State → Type 0
IsReached [] = ⊥
IsReached (s ∷ states) = (s ≡ ready) ⊎ IsReached states

wait_ready_iff : (states : List State) → (wait_ready states ≡ ok tt) ↔ IsReached states
unfolding wait_ready is_ready
wait_ready_iff [] = ground arith
wait_ready_iff (s ∷ states) = ground (arith, wait_ready_iff states)

connect_rpc_iff :
    (grpc : Transport) (endpoint : String)
    → (connect_rpc grpc endpoint ≡ ok tt)
      ↔ ((grpc.new_client endpoint ≡ ok idle) × IsReached grpc.changes)
unfolding connect_rpc is_idle
connect_rpc_iff grpc endpoint = ground (arith, wait_ready_iff grpc.changes)

module _ (is_dns1035_label : String → List String) (split_dots : String → List String)
    (has_prefix has_suffix : String → String → Bool) where
  -- The driver answered with this info, and it is valid.
  abbrev pub IsDriver : Result (String × List ProtocolType) → DriverInfo → Type 0
  IsDriver (ok (name, protocols)) info =
      validate_driver_info is_dns1035_label split_dots name protocols ≡ ok info
  IsDriver (err e) info = ⊥

  -- The sidecar gets a driver's info exactly when the endpoint is a socket with the required prefix and
  -- extension, the client is created and idle, it becomes ready before the timeout, the driver answers
  -- with its info, and this info is the validated one.
  pub connect_rpc_and_get_driver_info_iff :
      (grpc : Transport) (endpoint : String) (info : DriverInfo)
      → (connect_rpc_and_get_driver_info is_dns1035_label split_dots has_prefix has_suffix grpc
            endpoint
          ≡ ok info)
        ↔ ((has_prefix endpoint "unix://" ≡ true)
            × (has_suffix endpoint ".sock" ≡ true)
            × (grpc.new_client endpoint ≡ ok idle)
            × IsReached grpc.changes
            × IsDriver grpc.driver_get_info info)
  unfolding connect_rpc_and_get_driver_info
  connect_rpc_and_get_driver_info_iff grpc endpoint info =
      ground (arith, connect_rpc_iff grpc endpoint)
