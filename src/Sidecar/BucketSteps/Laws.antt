-- ===== src/Sidecar/BucketSteps/Laws.antt =====
-- What the protocol checks of the sidecar's BucketReconciler accept.
use cosi.Base.{String, true, List, [], ◌∷◌, ◌≡◌, ◌↔◌, arith}
use cosi.Base.Lists.{All, contains}
use cosi.Errors.{ok}
use cosi.Rpc.{ProtocolType}
use cosi.Protocol.{protocol_to_rpc}
use cosi.Driver.{DriverInfo, supports}
use cosi.Sidecar.BucketSteps.{
  protocol_list, object_protocol_list_from_api_list, unsupported_by_driver,
  validate_driver_supports_protocols, unsupported_by_bucket, validate_bucket_supports_protocols,
}

-- A bucket supports what is required exactly when its protocols hold each required one.
validate_bucket_supports_protocols_iff :
    (supported required : List String)
    → (validate_bucket_supports_protocols supported required ≡ ok tt)
      ↔ All (λ p. contains supported p ≡ true) required
unfolding validate_bucket_supports_protocols unsupported_by_bucket
validate_bucket_supports_protocols_iff supported [] = ground arith
validate_bucket_supports_protocols_iff supported (p ∷ ps) =
    ground (arith, validate_bucket_supports_protocols_iff supported ps)

-- A driver supports what is required exactly when it reported each required protocol.
validate_driver_supports_protocols_iff :
    (driver : DriverInfo) (required : List ProtocolType)
    → (validate_driver_supports_protocols driver required ≡ ok tt)
      ↔ All (λ p. supports driver.supported_protocols p ≡ true) required
unfolding validate_driver_supports_protocols unsupported_by_driver
validate_driver_supports_protocols_iff driver [] = ground arith
validate_driver_supports_protocols_iff driver (p ∷ ps) =
    ground (arith, validate_driver_supports_protocols_iff driver ps)

-- The names are those of the protocols, one by one.
abbrev pub AreNames : List String → List ProtocolType → Type 0
AreNames [] [] = Unit
AreNames [] (p ∷ ps) = ⊥
AreNames (n ∷ ns) [] = ⊥
AreNames (n ∷ ns) (p ∷ ps) = (protocol_to_rpc n ≡ ok p) × AreNames ns ps

-- A list of protocol names is read exactly when each name is a protocol's, and then as these protocols
-- in their order.
object_protocol_list_from_api_list_iff :
    (names : List String) (ps : List ProtocolType)
    → (object_protocol_list_from_api_list names ≡ ok ps) ↔ AreNames names ps
unfolding object_protocol_list_from_api_list protocol_list
object_protocol_list_from_api_list_iff [] [] = ground arith
object_protocol_list_from_api_list_iff [] (p ∷ ps) = ground arith
object_protocol_list_from_api_list_iff (n ∷ ns) [] =
    ground (arith, object_protocol_list_from_api_list_iff ns [])
object_protocol_list_from_api_list_iff (n ∷ ns) (p ∷ ps) =
    ground (arith, object_protocol_list_from_api_list_iff ns ps)
