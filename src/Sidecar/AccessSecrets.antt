-- ===== src/Sidecar/AccessSecrets.antt =====
-- The Secrets and the Buckets of a BucketAccess, as `BucketAccessReconciler` in
-- sidecar/pkg/reconciler/bucketaccess.go reads and writes them.
pub mod Laws
pub mod Filling
pub mod Ownership
use mathlib.Core.Logic.{ite}
use native.Mathlib.Decide.{ℕ_discrete}
use cosi.Base.{
  String, ℕ, Bool, true, false, not, Option, none, some, List, [], ◌∷◌, ◌++◌, ◌==◌, ◌!=◌,
  if◌then◌else◌,
}
use cosi.Base.Dict.{Dict, lookup, insert, has}
use cosi.Base.Lists.{length}
use cosi.Errors.{
  Error, api_error, errorf, wrapf, non_retryable_error, Reason, not_found, already_exists,
  other_reason, Result, ok, err, settle, fail_if_any,
}
use cosi.Api.Names.{protection_finalizer, bucket_claim_being_deleted}
use cosi.Api.Meta.{NamespacedName, is_zero, add_finalizer, remove_finalizer}
use cosi.Api.Buckets.{Bucket}
use cosi.Api.Accesses.{BucketAccess, BucketClaimAccess, AccessedBucket}
use cosi.Api.Secrets.{Secret, opaque, Owning}
use cosi.Translator.{merge}
use cosi.Driver.{DriverInfo}
use cosi.Effects.{Call, Reply, done, failed, Program, return, call, bind}
use cosi.Effects.Loops.{fold_each, fold_map}
use cosi.Controller.ClaimProvision.{global}
use cosi.Sidecar.AccessConfig.{InternalGrantAccessConfig, BucketGrantAccessConfig}
use cosi.Sidecar.AccessResponse.{GrantedAccessApiDetails}

-- `if test { errs = append(errs, ...) }`
abbrev pub error_if : Bool → Error → List Error
error_if test e = if test then e ∷ [] else []

-- `validateBucketIsReadyForAccess`
unfoldable pub validate_bucket_is_ready_for_access :
    DriverInfo → Bucket → String → Result (Unit {0})
unfolding has fail_if_any
validate_bucket_is_ready_for_access driver b expected =
    fail_if_any "cannot generate access for one or more Buckets: %w" (
      error_if (has bucket_claim_being_deleted b.metadata.annotations)
        (errorf "BucketClaim for Bucket %q is deleting" (b.metadata.name ∷ []))
      ++ (error_if (not (is_zero b.metadata.deletion_timestamp))
            (errorf "Bucket %q is deleting" (b.metadata.name ∷ []))
          ++ (error_if (b.status.bucket_id == "")
                (errorf "Bucket %q has no bucketID" (b.metadata.name ∷ []))
              ++ (error_if (b.status.bucket_id != expected) (
                    errorf "Bucket %q ID %q does not match expected ID %q"
                      (b.metadata.name ∷ b.status.bucket_id ∷ expected ∷ []))
                  ++ error_if (b.spec.driver_name != driver.name) (
                      errorf "Bucket %q driverName %q does not match expected driverName %q"
                        (b.metadata.name ∷ b.spec.driver_name ∷ driver.name ∷ []))))))

abbrev pub checked_bucket :
    DriverInfo → AccessedBucket → List Error → Reply Reason Bucket → List Error
checked_bucket driver ab errs (done b) =
    elim (validate_bucket_is_ready_for_access driver b ab.bucket_id) [
      | ok u ↦ errs
      | err e ↦ errs ++ non_retryable_error e ∷ []
    ]
checked_bucket driver ab errs (failed not_found text) =
    errs ++ non_retryable_error (api_error not_found text) ∷ []
checked_bucket driver ab errs (failed already_exists text) =
    errs ++ api_error already_exists text ∷ []
checked_bucket driver ab errs (failed other_reason text) = errs ++ api_error other_reason text ∷ []

unfoldable pub check_bucket : DriverInfo → List Error → AccessedBucket → Program (List Error)
check_bucket driver errs ab =
    call (Call.get_bucket (global ab.bucket_name)) (λ r. return (checked_bucket driver ab errs r))

-- `getAndValidateAllAccessedBuckets`
unfoldable pub get_and_validate_all_accessed_buckets :
    DriverInfo → BucketAccess → Program (Result (Unit {0}))
get_and_validate_all_accessed_buckets driver access =
    bind (fold_each (check_bucket driver) [] access.status.accessed_buckets)
      λ errs. return (fail_if_any "failed to get accessed Buckets: %w" errs)

-- `setAccessSecretRequiredMetadata`
unfoldable pub set_access_secret_required_metadata : Secret → Secret
unfolding add_finalizer
set_access_secret_required_metadata s = record s {
  metadata = record (s.metadata) {
    finalizers = (add_finalizer protection_finalizer s.metadata.finalizers).0;
  };
  secret_type = opaque;
}

-- The Secret that `createNewOwnedAccessSecret` starts from.
abbrev pub new_secret : String → String → Secret
new_secret namespace name = record {
  metadata = record {
    name = name;
    namespace = namespace;
    uid = "";
    generation = 0;
    annotations = [];
    finalizers = [];
    deletion_timestamp = none;
  };
  owner_references = [];
  secret_type = "";
  stored_data = [];
  string_data = [];
}

abbrev pub created_secret : Reply Reason Secret → Result Secret
created_secret (done s) = ok s
created_secret (failed k text) = err (api_error k text)

-- The errors of the loop, and the Secrets by name.
abbrev pub Reserving : Type 0
Reserving = List Error × Dict Secret

abbrev pub reserved : String → Reserving → Result Secret → Reserving
reserved name (errs, secrets) (ok s) = (errs, insert name s secrets)
reserved name (errs, secrets) (err e) = (errs ++ e ∷ [], secrets)

abbrev pub secret_name : BucketAccess → BucketClaimAccess → NamespacedName
secret_name access ref = record {
  namespace = access.metadata.namespace;
  name = ref.access_secret_name;
}

module _ (owning : Owning) where
  -- `createNewOwnedAccessSecret`
  unfoldable pub create_new_owned_access_secret : String → BucketAccess → Program (Result Secret)
  unfolding set_access_secret_required_metadata
  create_new_owned_access_secret name access =
      elim (owning.set_controller_reference access (new_secret access.metadata.namespace name)) [
        | err e ↦ return (err e)
        | ok s ↦
            call (Call.create_secret (set_access_secret_required_metadata s))
              (λ r. return (created_secret r))
      ]

  -- `updateExistingAccessSecretMetadata`: the Secret as the server then has it.
  unfoldable pub update_existing_access_secret_metadata :
      Secret → BucketAccess → Program (Result Secret)
  unfolding set_access_secret_required_metadata
  update_existing_access_secret_metadata s access =
      if not (owning.is_controlled_by s access)
      then return (
          err (
            non_retryable_error (
              errorf "existing access Secret %q does not belong to BucketAccess"
                (s.metadata.name ∷ []))))
      else call (Call.update_secret (set_access_secret_required_metadata s))
          (λ r. return (created_secret r))

  unfoldable pub found_secret :
      String → BucketAccess → Reply Reason Secret → Program (Result Secret)
  unfolding create_new_owned_access_secret update_existing_access_secret_metadata
  found_secret name access (done s) = update_existing_access_secret_metadata s access
  found_secret name access (failed not_found text) = create_new_owned_access_secret name access
  found_secret name access (failed already_exists text) =
      return (err (api_error already_exists text))
  found_secret name access (failed other_reason text) = return (err (api_error other_reason text))

  -- The body of the loop of `reserveAccessSecrets`.
  unfoldable pub reserve_secret : BucketAccess → Reserving → BucketClaimAccess → Program Reserving
  unfolding has insert found_secret
  reserve_secret access s ref =
      if has ref.access_secret_name (s.1)
      then return (
        s.0
            ++ non_retryable_error (
                errorf "multiple referenced BucketClaims use the same accessSecretName %q"
                  (ref.access_secret_name ∷ []))
              ∷ [],
        s.1,
      )
      else call (Call.get_secret (secret_name access ref)) λ r.
        bind (found_secret ref.access_secret_name access r)
          (λ q. return (reserved ref.access_secret_name s q))

  -- The tests after that loop: no errors, and as many Secrets as references.
  unfoldable pub all_reserved : BucketAccess → Reserving → Result (Dict Secret)
  unfolding settle ℕ_discrete
  all_reserved access s =
      elim (settle "failed to reserve one or more Secrets for access info: %w" (s.1) (s.0)) [
        | err e ↦ err e
        | ok secrets ↦
            ite (ℕ_discrete (length secrets) (length access.spec.bucket_claims)) (ok secrets)
              (err (errorf "did not reserve one or more access Secrets, but no errors observed" []))
      ]

  -- `reserveAccessSecrets`
  unfoldable pub reserve_access_secrets : BucketAccess → Program (Result (Dict Secret))
  reserve_access_secrets access =
      bind (fold_each (reserve_secret access) ([], []) access.spec.bucket_claims)
        (λ s. return (all_reserved access s))

  abbrev pub deleted_secret : List Error → Reply Reason (Unit {0}) → List Error
  deleted_secret errs (done u) = errs
  deleted_secret errs (failed k text) = errs ++ api_error k text ∷ []

  -- The finalizer is gone; then the Secret is deleted.
  abbrev pub released_secret : List Error → Reply Reason Secret → Program (List Error)
  released_secret errs (done s) = call (Call.delete_secret s) (λ r. return (deleted_secret errs r))
  released_secret errs (failed k text) = return (
      errs
      ++ wrapf "failed to remove protection finalizer from access Secret: %w" [] (api_error k text)
        ∷ [])

  abbrev pub without_finalizer : Secret → Secret
  without_finalizer s = record s {
    metadata = record (s.metadata) {
      finalizers = remove_finalizer protection_finalizer s.metadata.finalizers;
    };
  }

  unfoldable pub release_found :
      BucketAccess → List Error → Reply Reason Secret → Program (List Error)
  release_found access errs (done s) =
      if not (owning.is_controlled_by s access)
      then return errs
      else call (Call.update_secret (without_finalizer s)) (released_secret errs)
  release_found access errs (failed not_found text) = return errs
  release_found access errs (failed already_exists text) =
      return (errs ++ api_error already_exists text ∷ [])
  release_found access errs (failed other_reason text) =
      return (errs ++ api_error other_reason text ∷ [])

  -- The body of the loop of `deleteOwnedAccessSecrets`.
  unfoldable pub release_secret :
      BucketAccess → List Error → BucketClaimAccess → Program (List Error)
  unfolding release_found
  release_secret access errs ref =
      call (Call.get_secret (secret_name access ref)) (release_found access errs)

  -- `deleteOwnedAccessSecrets`
  unfoldable pub delete_owned_access_secrets : BucketAccess → Program (Result (Unit {0}))
  delete_owned_access_secrets access =
      bind (fold_each (release_secret access) [] access.spec.bucket_claims) λ errs.
        return (fail_if_any "failed to ensure deletion of one or more access Secrets: %w" errs)
