-- ===== src/Sidecar/BucketSteps.antt =====
-- The steps of `BucketReconciler` in sidecar/pkg/reconciler/bucket.go: protocol lists, the bucket ID,
-- and the two provisioning workflows. The Bucket that the Go code points to is a `Method`'s state.
pub mod Laws
use cosi.Base.{String, false, Option, none, some, List, [], ◌∷◌, ◌||◌}
use cosi.Base.{◌==◌, if◌then◌else◌}
use cosi.Base.Dict.{Dict}
use cosi.Base.Lists.{is_empty, contains}
use cosi.Errors.{
  Error, rpc_error, errorf, wrapf, non_retryable_error, Code, grpc_not_found, Result, ok, err,
  settle,
}
use cosi.Rpc.{ProtocolType, BucketInfo}
use cosi.Api.Meta.{deref_or_false}
use cosi.Api.Buckets.{Bucket}
use cosi.Protocol.{protocol_to_rpc}
use cosi.Translator.{bucket_info_to_api}
use cosi.Driver.{DriverInfo, supports, rpc_error_is_retryable}
use cosi.Effects.{Call, Reply, done, failed, Program, return, call, Method, stored}
use cosi.Sidecar.BucketId.{validate_bucket_id}

-- The error of a failed RPC, marked unless the baseline scheme retries its code.
unfoldable pub rpc_failure : Code → String → Error
unfolding rpc_error_is_retryable
rpc_failure c text =
    if rpc_error_is_retryable c then rpc_error c text else non_retryable_error (rpc_error c text)

-- `objectProtocolListFromApiList`: the errors and the list that its loop collects.
unfoldable pub protocol_list : List String → List Error × List ProtocolType
unfolding protocol_to_rpc
protocol_list [] = ([], [])
protocol_list (a ∷ as') =
    let (errs, out) = protocol_list as' in
    elim (protocol_to_rpc a) [ ok p ↦ (errs, p ∷ out) | err e ↦ (e ∷ errs, out) ]

unfoldable pub object_protocol_list_from_api_list : List String → Result (List ProtocolType)
unfolding protocol_list settle
object_protocol_list_from_api_list api_list =
    settle "failed to parse protocol list: %w" (protocol_list api_list).1 (protocol_list api_list).0

-- The required protocols that the driver lacks.
unfoldable unsupported_by_driver : DriverInfo → List ProtocolType → List ProtocolType
unfolding supports
unsupported_by_driver driver [] = []
unsupported_by_driver driver (p ∷ ps) =
    let rest = unsupported_by_driver driver ps in
    if supports driver.supported_protocols p then rest else p ∷ rest

-- `validateDriverSupportsProtocols`. The message lists the protocols by the names of the proto enum.
unfoldable pub validate_driver_supports_protocols :
    DriverInfo → List ProtocolType → Result (Unit {0})
unfolding unsupported_by_driver
validate_driver_supports_protocols driver required =
    if is_empty (unsupported_by_driver driver required)
    then ok tt
    else err (errorf "driver %q does not support protocols: %v" (driver.name ∷ []))

-- The required protocols that the provisioned bucket lacks.
unfoldable pub unsupported_by_bucket : List String → List String → List String
unfolding contains
unsupported_by_bucket supported [] = []
unsupported_by_bucket supported (r ∷ rs) =
    let rest = unsupported_by_bucket supported rs in if contains supported r then rest else r ∷ rest

-- `validateBucketSupportsProtocols`
unfoldable pub validate_bucket_supports_protocols : List String → List String → Result (Unit {0})
unfolding unsupported_by_bucket
validate_bucket_supports_protocols supported required =
    if is_empty (unsupported_by_bucket supported required)
    then ok tt
    else err (
        errorf "required protocols are not supported: %v"
          (unsupported_by_bucket supported required))

-- `getBucketIdIfSet`
unfoldable pub get_bucket_id_if_set : Bucket → Result String
get_bucket_id_if_set bucket =
    if bucket.status.bucket_id == ""
    then (if deref_or_false bucket.status.ready_to_use
        then err (
            non_retryable_error
              (errorf "invalid Bucket status: readyToUse is true but no bucket ID is assigned" []))
        else ok bucket.spec.existing_bucket_id)
    else ok bucket.status.bucket_id

-- The tests of `generateBucketID` on the driver's answer.
unfoldable check_generated_id : String → Result String
unfolding validate_bucket_id
check_generated_id id =
    if id == ""
    then err (non_retryable_error (errorf "generated bucket ID missing" []))
    else elim (validate_bucket_id id) [ ok valid ↦ ok id | err e ↦ err (non_retryable_error e) ]

generated : Bucket → Reply Code String → Program (Result String × Bucket)
unfolding check_generated_id rpc_failure
generated bucket (done id) = return (check_generated_id id, bucket)
generated bucket (failed c text) = return (err (rpc_failure c text), bucket)

-- `generateBucketID`, with the name and the parameters of the Bucket as it then is.
unfoldable pub generate_bucket_id : List ProtocolType → Method Bucket String
unfolding generated
generate_bucket_id required bucket =
    call
      (Call.driver_generate_bucket_id (record {
        name = bucket.metadata.name;
        protocols = required;
        parameters = bucket.spec.parameters;
      }))
      (generated bucket)

-- `recordBucketId`: written before any backend bucket exists, so the Bucket is not ready.
unfoldable pub record_bucket_id : String → Method Bucket (Unit {0})
record_bucket_id id bucket =
    let b = record bucket {
      status = record (bucket.status) { bucket_id = id; ready_to_use = some false };
    } in
    call (Call.update_bucket_status b)
      (stored (wrapf "failed to update Bucket status with the bucket ID: %w" []) b)

-- `provisionedBucketDetails`
pub record ProvisionedBucketDetails : Type 0 where
  pub supported_protos : List String
  pub all_proto_bucket_info : Dict String

-- What both provisioning workflows make of the protocols of a driver's answer.
unfoldable details_of : String → Option BucketInfo → Result ProvisionedBucketDetails
unfolding bucket_info_to_api
details_of missing none = err (non_retryable_error (errorf missing []))
details_of missing (some info) = elim (bucket_info_to_api (some info) none) [
  | err e ↦ err (non_retryable_error e)
  | ok r ↦ ok (record { supported_protos = r.0; all_proto_bucket_info = r.1 })
]

created :
    Bucket → Reply Code (Option BucketInfo) → Program (Result ProvisionedBucketDetails × Bucket)
unfolding details_of rpc_failure
created bucket (failed c text) = return (err (rpc_failure c text), bucket)
created bucket (done info) =
    return (details_of "created bucket protocol response missing" info, bucket)

-- `dynamicProvision`, of the given bucket ID
unfoldable pub dynamic_provision :
    String → List ProtocolType → Method Bucket ProvisionedBucketDetails
unfolding created
dynamic_provision bucket_id required bucket =
    let cr = bucket.spec.bucket_claim_ref in
    if cr.name == "" || (cr.namespace == "" || cr.uid == "")
    then return (
      err (
          non_retryable_error (
            errorf "all bucketClaimRef fields must be set for dynamic provisioning: %#v"
              (cr.name ∷ cr.namespace ∷ cr.uid ∷ []))),
      bucket,
    )
    else call
        (Call.driver_create_bucket (record {
          bucket_id = bucket_id;
          protocols = required;
          parameters = bucket.spec.parameters;
        }))
        (created bucket)

-- A bucket that the driver does not find is waited for.
got : Bucket → Reply Code (Option BucketInfo) → Program (Result ProvisionedBucketDetails × Bucket)
unfolding details_of rpc_failure
got bucket (failed grpc_not_found text) = return (
  err (wrapf "waiting for backend bucket to exist: %w" [] (rpc_error grpc_not_found text)),
  bucket,
)
got bucket (failed c text) = return (err (rpc_failure c text), bucket)
got bucket (done info) =
    return (details_of "existing bucket protocol response missing" info, bucket)

-- `staticProvision`, of the given bucket ID
unfoldable pub static_provision :
    String → List ProtocolType → Method Bucket ProvisionedBucketDetails
unfolding got
static_provision bucket_id required bucket =
    let ref = bucket.spec.bucket_claim_ref in
    if ref.name == "" || ref.namespace == ""
    then return (
      err (
          non_retryable_error (
            errorf "bucketClaimRef namespace and name must be set for static provisioning: %#v"
              (ref.name ∷ ref.namespace ∷ ref.uid ∷ []))),
      bucket,
    )
    else call
        (Call.driver_get_bucket (record {
          bucket_id = bucket_id;
          protocols = required;
          parameters = bucket.spec.parameters;
        }))
        (got bucket)
