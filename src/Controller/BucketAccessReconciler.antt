-- ===== src/Controller/BucketAccessReconciler.antt =====
-- `BucketAccessReconciler` of controller/pkg/reconciler/bucketaccess.go: prepares a BucketAccess for the
-- sidecar, hands it over, and lets it go once the sidecar has cleaned up.
pub mod Compose
pub mod Steps
pub mod Handing
pub mod HandingSteps
pub mod HandingOver
pub mod LettingGo
use cosi.Base.{String, ℕ, Bool, true, false, Option, none, some, List, [], ◌∷◌, not, if◌then◌else◌}
use cosi.Base.Dict.{Dict}
use cosi.Base.Lists.{is_empty}
use cosi.Errors.{
  Error, api_error, errorf, wrapf, non_retryable_error, Reason, not_found, already_exists,
  other_reason, Result, ok, err, is_non_retryable,
}
use cosi.Api.Meta.{
  NamespacedName, is_zero, or_to_false, add_finalizer, remove_finalizer, new_timestamped_error,
}
use cosi.Api.Names.{protection_finalizer}
use cosi.Api.Buckets.{Bucket}
use cosi.Api.Claims.{BucketClaim}
use cosi.Api.Accesses.{BucketAccess, BucketAccessClass, AccessedBucket}
use cosi.Handoff.{managed_by_sidecar, sidecar_requirements_present}
use cosi.Effects.{
  Call, Reply, done, failed, Program, return, call, bind, Method, after, ◌>>=◌, ◌>>◌, lift, stored,
  Outcome, finished, retry, terminal,
}
use cosi.Controller.ClaimProvision.{global}
use cosi.Controller.AccessRules.{
  Message, validate_access_against_class, cannot_access_bucket_claims, waiting_on_bucket_claims,
  compile_accessed_buckets,
}
use cosi.Controller.AccessClaims.{
  validate_all_bucket_claim_references_unique, get_all_bucket_claims,
  mark_all_bucket_claims_as_accessed, unmark_unaccessed_bucket_claims, get_buckets_for_claims,
}

unfoldable pub protect : Method BucketAccess (Unit {0})
unfolding add_finalizer
protect access =
    let (finalizers, did_add) = add_finalizer protection_finalizer access.metadata.finalizers in
    let a = record access { metadata = record (access.metadata) { finalizers = finalizers } } in
    if did_add
    then call (Call.update_bucket_access a)
        (stored (wrapf "failed to add protection finalizer: %w" []) a)
    else return (ok tt, access)

unfoldable pub check_unique : Method BucketAccess (Unit {0})
check_unique access =
    return (validate_all_bucket_claim_references_unique access.spec.bucket_claims, access)

-- The claims that the access refers to.
unfoldable pub fetch_claims : Method BucketAccess (Dict (Option BucketClaim))
fetch_claims access =
    lift (get_all_bucket_claims access.metadata.namespace access.spec.bucket_claims) access

abbrev pub answered :
    {A : Type 0} → BucketAccess → Reply Reason A → Program (Result A × BucketAccess)
answered access (done a) = return (ok a, access)
answered access (failed k text) = return (err (api_error k text), access)

unfoldable pub get_class : Method BucketAccess BucketAccessClass
get_class access =
    call (Call.get_bucket_access_class (global access.spec.bucket_access_class_name))
      (answered access)

unfoldable pub check_class : BucketAccessClass → Method BucketAccess (Unit {0})
check_class class access = elim (validate_access_against_class class.spec access.spec) [
  | ok u ↦ return (ok tt, access)
  | err e ↦ return (err (non_retryable_error e), access)
]

-- The formats of messages stand for the messages.
unfoldable texts : List Message → List String
texts [] = []
texts (m ∷ ms) = m.0 ∷ texts ms

unfoldable pub check_blockers : Dict (Option BucketClaim) → Method BucketAccess (Unit {0})
unfolding texts
check_blockers claims access =
    let blockers = cannot_access_bucket_claims claims access.spec in
    if is_empty blockers
    then return (ok tt, access)
    else return (
      err (
          non_retryable_error (
            errorf "access cannot be provisioned for one or more BucketClaims: %v"
              (texts blockers))),
      access,
    )

unfoldable pub check_waitlist :
    Dict (Option BucketClaim) → Dict (Option Bucket) → Method BucketAccess (Unit {0})
unfolding texts
check_waitlist claims buckets access =
    let waitlist = waiting_on_bucket_claims claims buckets in
    if is_empty waitlist
    then return (ok tt, access)
    else return (
      err (errorf "waiting for prerequisites before provisioning access: %v" (texts waitlist)),
      access,
    )

unfoldable pub compile : Dict (Option Bucket) → Method BucketAccess (List AccessedBucket)
compile buckets access = elim (compile_accessed_buckets access.spec.bucket_claims buckets) [
  | ok accessed ↦ return (ok accessed, access)
  | err e ↦ return (err (wrapf "waiting for BucketClaims to finish provisioning: %w" [] e), access)
]

-- The access as it is handed to the sidecar.
abbrev pub handed : BucketAccessClass → List AccessedBucket → BucketAccess → BucketAccess
handed class accessed access = record access {
  status = record (access.status) {
    ready_to_use = or_to_false access.status.ready_to_use;
    accessed_buckets = accessed;
    driver_name = class.spec.driver_name;
    authentication_type = class.spec.authentication_type;
    parameters = class.spec.parameters;
    error = none;
  };
}

unfoldable pub hand_over : BucketAccessClass → List AccessedBucket → Method BucketAccess (Unit {0})
hand_over class accessed access =
    call (Call.update_bucket_access_status (handed class accessed access))
      (stored (λ e. e) (handed class accessed access))

-- The part of `reconcile` from the class on.
unfoldable pub initialize_from : Dict (Option BucketClaim) → Method BucketAccess (Unit {0})
initialize_from claims = do
  class ← get_class
  check_class class
  buckets ← lift (get_buckets_for_claims claims)
  check_blockers claims
  check_waitlist claims buckets
  accessed ← compile buckets
  hand_over class accessed

-- An access that was initialized before is not initialized again.
unfoldable pub initialize_once : Dict (Option BucketClaim) → Method BucketAccess (Unit {0})
initialize_once claims access =
    if is_empty access.status.accessed_buckets
    then initialize_from claims access
    else return (ok tt, access)

-- The part of `reconcile` below its guards.
unfoldable pub initialize : Method BucketAccess (Unit {0})
initialize = do
  protect
  check_unique
  claims ← fetch_claims
  now ← lift (mark_all_bucket_claims_as_accessed claims)
  initialize_once now

unfoldable pub list_accesses : Method BucketAccess (List BucketAccess)
list_accesses access = call (Call.list_bucket_accesses access.metadata.namespace) (answered access)

unfoldable pub unmark :
    Dict (Option BucketClaim) → List BucketAccess → Method BucketAccess (Unit {0})
unmark claims accesses access =
    lift (unmark_unaccessed_bucket_claims claims accesses access.metadata.name) access

unfoldable pub unprotect : Method BucketAccess (Unit {0})
unprotect access =
    let a = record access {
      metadata = record (access.metadata) {
        finalizers = remove_finalizer protection_finalizer access.metadata.finalizers;
      };
    } in
    call (Call.update_bucket_access a) (stored (wrapf "failed to remove finalizer: %w" []) a)

-- `reconcileDelete`
unfoldable pub reconcile_delete : Method BucketAccess (Unit {0})
reconcile_delete = do
  claims ← fetch_claims
  accesses ← list_accesses
  unmark claims accesses
  unprotect

-- `reconcile`
unfoldable pub reconcile : Method BucketAccess (Unit {0})
reconcile access =
    if not (is_zero access.metadata.deletion_timestamp)
    then reconcile_delete access
    else elim (sidecar_requirements_present access.status) [
      | err e ↦
          return
            (err (non_retryable_error (wrapf "processed a degraded BucketAccess: %w" [] e)), access)
      | ok initialized ↦
          if initialized
          then return (
            err (
                non_retryable_error
                  (errorf "processed a BucketAccess that should be managed by COSI Sidecar" [])),
            access,
          )
          else initialize access
    ]

-- The error that is reported: it names the component.
abbrev pub named : Error → Error
named e = wrapf "COSI Controller error: %w" [] e

abbrev pub reported : Error → Reply Reason BucketAccess → Program Outcome
reported e (failed k text) = return (retry e)
reported e (done a) = return (if is_non_retryable e then terminal e else retry e)

-- `err.Error()` is a parameter of what reports an error.
module _ (render : Error → String) where
  abbrev pub with_error : BucketAccess → Error → ℕ → BucketAccess
  with_error access e t = record access {
    status = record (access.status) {
      ready_to_use = or_to_false access.status.ready_to_use;
      error = some (new_timestamped_error t (render e));
    };
  }

  -- The part of `Reconcile` after `reconcile`. Success leaves the error in the status alone.
  unfoldable pub report : Result (Unit {0}) × BucketAccess → Program Outcome
  unfolding new_timestamped_error is_non_retryable
  report (err e, access) = call Call.now λ t.
      call (Call.update_bucket_access_status (with_error access (named e) t)) (reported (named e))
  report (ok _, access) = return finished

  unfoldable pub fetched : Reply Reason BucketAccess → Program Outcome
  fetched (failed not_found text) = return finished
  fetched (failed already_exists text) = return (retry (api_error already_exists text))
  fetched (failed other_reason text) = return (retry (api_error other_reason text))
  fetched (done access) =
      if managed_by_sidecar access then return finished else bind (reconcile access) report

  -- `Reconcile`
  unfoldable pub reconcile_request : NamespacedName → Program Outcome
  reconcile_request req = call (Call.get_bucket_access req) fetched
