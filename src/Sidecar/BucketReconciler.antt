-- ===== src/Sidecar/BucketReconciler.antt =====
-- `BucketReconciler` of sidecar/pkg/reconciler/bucket.go: provisions the backend bucket of a Bucket
-- through the driver, and deletes it.
pub mod Compose
pub mod Identity
pub mod Deletion
pub mod Readiness
pub mod Progress
pub mod Cleanup
pub mod Reporting
use cosi.Base.{String, ℕ, ◌≡◌, Bool, true, false, Option, none, some, List, [], ◌∷◌, not, ◌&&◌}
use cosi.Base.{◌==◌, ◌!=◌, if◌then◌else◌}
use cosi.Base.Dict.{has}
use cosi.Base.Lists.{is_empty}
use cosi.Errors.{
  Error, api_error, errorf, wrapf, non_retryable_error, Reason, not_found, already_exists,
  other_reason, Code, Result, ok, err, is_non_retryable,
}
use cosi.Rpc.{ProtocolType}
use cosi.Api.Meta.{
  NamespacedName, is_zero, is_none, or_to_false, add_finalizer, remove_finalizer,
  new_timestamped_error,
}
use cosi.Api.Names.{protection_finalizer, bucket_claim_being_deleted, delete}
use cosi.Api.Buckets.{Bucket}
use cosi.Driver.{DriverInfo}
use cosi.Effects.{
  Call, Reply, done, failed, Program, return, call, bind, Method, after, ◌>>=◌, ◌>>◌, object,
  of_result, stored, Outcome, finished, retry, terminal,
}
use cosi.Sidecar.BucketSteps.{
  rpc_failure, object_protocol_list_from_api_list, validate_driver_supports_protocols,
  validate_bucket_supports_protocols, get_bucket_id_if_set, generate_bucket_id, record_bucket_id,
  ProvisionedBucketDetails, dynamic_provision, static_provision,
}

-- `if didAdd := AddFinalizer(...); didAdd { Update }`
unfoldable pub protect : Method Bucket (Unit {0})
unfolding add_finalizer
protect bucket =
    let (finalizers, did_add) = add_finalizer protection_finalizer bucket.metadata.finalizers in
    let b = record bucket { metadata = record (bucket.metadata) { finalizers = finalizers } } in
    if did_add
    then call (Call.update_bucket b) (stored (wrapf "failed to add protection finalizer: %w" []) b)
    else return (ok tt, bucket)

-- The ID that Kubernetes holds, or one from the driver.
unfoldable pub determine_bucket_id : List ProtocolType → Method Bucket String
unfolding get_bucket_id_if_set generate_bucket_id
determine_bucket_id required bucket = elim (get_bucket_id_if_set bucket) [
  | err e ↦ return (err e, bucket)
  | ok id ↦ if id == "" then generate_bucket_id required bucket else return (ok id, bucket)
]

-- The guard on an empty ID, and the write of an ID that the status does not hold yet.
unfoldable pub ensure_recorded : String → Method Bucket (Unit {0})
unfolding record_bucket_id
ensure_recorded id bucket =
    if id == ""
    then return (
      err (
          non_retryable_error
            (errorf "internal error: no bucket ID determined before provisioning" [])),
      bucket,
    )
    else if bucket.status.bucket_id == ""
    then record_bucket_id id bucket
    else return (ok tt, bucket)

-- The checks on what was provisioned, and the final status.
unfoldable pub complete : String → ProvisionedBucketDetails → Method Bucket (Unit {0})
unfolding validate_bucket_supports_protocols
complete id details bucket =
    if is_empty details.supported_protos
    then return
        (err (non_retryable_error (errorf "created bucket supports no protocols" [])), bucket)
    else elim (validate_bucket_supports_protocols details.supported_protos bucket.spec.protocols) [
      | err e ↦
          return
            (err (non_retryable_error (wrapf "bucket required protocols missing: %w" [] e)), bucket)
      | ok valid ↦
          let b = record bucket {
            status = record {
              ready_to_use = some true;
              bucket_id = id;
              protocols = details.supported_protos;
              bucket_info = details.all_proto_bucket_info;
              error = none;
            };
          } in
          call (Call.update_bucket_status b) (
            stored (wrapf "failed to update Bucket status after successful bucket creation: %w" [])
              b)
    ]

-- The part of `reconcile` below its guards. The flag tells static provisioning, as read before the
-- finalizer was written.
unfoldable pub provision : Bool → List ProtocolType → Method Bucket (Unit {0})
provision static required = do
  protect
  id ← determine_bucket_id required
  ensure_recorded id
  details ← if static then static_provision id required else dynamic_provision id required
  complete id details

-- The status of a Bucket that is not to be used any more.
abbrev withdrawn : Bucket → Bucket
withdrawn bucket = record bucket {
  status = record (bucket.status) { ready_to_use = some false; error = none };
}

abbrev before_deletion : Error → Error
before_deletion e = wrapf "failed to update Bucket status before deletion: %w" [] e

unfoldable pub unprotect : Method Bucket (Unit {0})
unprotect bucket =
    let b = record bucket {
      metadata = record (bucket.metadata) {
        finalizers = remove_finalizer protection_finalizer bucket.metadata.finalizers;
      };
    } in
    call (Call.update_bucket b) (stored (wrapf "failed to remove finalizer: %w" []) b)

abbrev pub deleted : Bucket → Reply Code (Unit {0}) → Program (Result (Unit {0}) × Bucket)
deleted bucket (done u) = return (ok tt, bucket)
deleted bucket (failed c text) = return (err (rpc_failure c text), bucket)

-- The driver deletes a bucket whose ID is recorded.
unfoldable pub delete_backend : Method Bucket (Unit {0})
unfolding rpc_failure
delete_backend bucket =
    if bucket.status.bucket_id == ""
    then return (ok tt, bucket)
    else call
        (Call.driver_delete_bucket
          (record { bucket_id = bucket.status.bucket_id; parameters = bucket.spec.parameters }))
        (deleted bucket)

-- A Bucket may go if its claim is being deleted or if it is bound to no claim.
unfoldable pub may_delete : Bucket → Bool
unfolding has
may_delete bucket =
    if has bucket_claim_being_deleted bucket.metadata.annotations
    then true
    else bucket.spec.bucket_claim_ref.uid == ""

unfoldable pub withdraw : Method Bucket (Unit {0})
withdraw bucket =
    call (Call.update_bucket_status (withdrawn bucket)) (stored before_deletion (withdrawn bucket))

unfoldable pub clean_up : Method Bucket (Unit {0})
clean_up = do withdraw; delete_backend; unprotect

unfoldable pub reconcile_delete : Method Bucket (Unit {0})
reconcile_delete bucket =
    if bucket.spec.deletion_policy != delete
    then return (
      err (
          non_retryable_error (
            errorf "will not delete Bucket with non-delete deletion policy %q"
              (bucket.spec.deletion_policy ∷ []))),
      bucket,
    )
    else if may_delete bucket
    then clean_up bucket
    else return (
      err (
          non_retryable_error (
            errorf "will not delete Bucket bound to a non-deleting BucketClaim: %#v" (
              bucket.spec.bucket_claim_ref.name ∷ bucket.spec.bucket_claim_ref.namespace
              ∷ bucket.spec.bucket_claim_ref.uid ∷ []))),
      bucket,
    )

module _ (driver : DriverInfo) where
  -- The check of the parsed protocols against the driver's.
  unfoldable pub provision_with : Result (List ProtocolType) → Method Bucket (Unit {0})
  provision_with (err e) bucket = return (err (non_retryable_error e), bucket)
  provision_with (ok required) bucket = elim (validate_driver_supports_protocols driver required) [
    | err e ↦ return (err (non_retryable_error e), bucket)
    | ok supported ↦ provision (bucket.spec.existing_bucket_id != "") required bucket
  ]

  -- The guards of `reconcile` on the protocols.
  unfoldable pub provision_if_supported : Method Bucket (Unit {0})
  provision_if_supported bucket =
      provision_with (object_protocol_list_from_api_list bucket.spec.protocols) bucket

  -- `reconcile`
  unfoldable pub reconcile : Method Bucket (Unit {0})
  reconcile bucket =
      if bucket.spec.driver_name != driver.name
      then return (ok tt, bucket)
      else if not (is_zero bucket.metadata.deletion_timestamp)
      then reconcile_delete bucket
      else if has bucket_claim_being_deleted bucket.metadata.annotations
      then withdraw bucket
      else provision_if_supported bucket

  abbrev pub cleared : Bucket → Bucket
  cleared bucket = record bucket {
    status = record (bucket.status) {
      ready_to_use = or_to_false bucket.status.ready_to_use;
      error = none;
    };
  }

  -- The error to report where the status update failed too, and where it did not.
  abbrev pub reported : Error → Reply Reason Bucket → Program Outcome
  reported e (failed k text) = return (retry e)
  reported e (done b) = return (if is_non_retryable e then terminal e else retry e)

  abbrev pub cleared_or_retry : Reply Reason Bucket → Program Outcome
  cleared_or_retry (failed k text) = return (retry (api_error k text))
  cleared_or_retry (done b) = return finished

  -- `err.Error()` is a parameter of what reports an error.
  module _ (render : Error → String) where
    abbrev pub with_error : Bucket → Error → ℕ → Bucket
    with_error bucket e t = record bucket {
      status = record (bucket.status) {
        ready_to_use = or_to_false bucket.status.ready_to_use;
        error = some (new_timestamped_error t (render e));
      };
    }

    -- The part of `Reconcile` after `reconcile`.
    unfoldable pub report : Result (Unit {0}) × Bucket → Program Outcome
    unfolding new_timestamped_error is_non_retryable
    report (err e, bucket) =
        call Call.now λ t. call (Call.update_bucket_status (with_error bucket e t)) (reported e)
    report (ok _, bucket) =
        if is_none bucket.status.error
        then return finished
        else if is_zero bucket.metadata.deletion_timestamp
        then call (Call.update_bucket_status (cleared bucket)) cleared_or_retry
        else return finished

    unfoldable pub fetched : Reply Reason Bucket → Program Outcome
    fetched (failed not_found text) = return finished
    fetched (failed already_exists text) = return (retry (api_error already_exists text))
    fetched (failed other_reason text) = return (retry (api_error other_reason text))
    fetched (done bucket) = bind (reconcile bucket) report

    -- `Reconcile`
    unfoldable pub reconcile_request : NamespacedName → Program Outcome
    reconcile_request req = call (Call.get_bucket req) fetched
