-- ===== src/Sidecar/BucketAccessReconciler.antt =====
-- `BucketAccessReconciler` of sidecar/pkg/reconciler/bucketaccess.go: has the driver grant a BucketAccess
-- and fills its Secrets, and has the access revoked before it hands it back to the controller.
pub mod Compose
pub mod Steps
pub mod Granting
pub mod Revoking
pub mod Progress
use cosi.Base.{
  String, ℕ, Bool, true, false, Option, none, some, List, [], ◌∷◌, not, ◌==◌, ◌!=◌, if◌then◌else◌,
}
use cosi.Base.Dict.{Dict, insert}
use cosi.Errors.{
  Error, api_error, rpc_error, errorf, wrapf, non_retryable_error, Reason, not_found,
  already_exists, other_reason, Code, out_of_range, Result, ok, err, is_non_retryable,
}
use cosi.Rpc.{GrantRequest, GrantResponse, RevokeRequest}
use cosi.Api.Meta.{NamespacedName, is_zero, or_to_false, add_finalizer, new_timestamped_error}
use cosi.Api.Names.{protection_finalizer, sidecar_cleanup_finished}
use cosi.Api.Accesses.{BucketAccess}
use cosi.Api.Secrets.{Secret, Owning}
use cosi.Handoff.{managed_by_sidecar, sidecar_requirements_present}
use cosi.Driver.{DriverInfo}
use cosi.Effects.{
  Call, Reply, done, failed, Program, return, call, bind, Method, after, ◌>>=◌, ◌>>◌, lift, stored,
  Outcome, finished, retry, terminal,
}
use cosi.Effects.Loops.{rearrange}
use cosi.Sidecar.BucketSteps.{rpc_failure}
use cosi.Sidecar.AccessConfig.{
  BucketGrantAccessConfig, InternalGrantAccessConfig, InternalRevokeAccessConfig,
  new_internal_grant_access_config, rpc_grant_buckets_list, new_internal_revoke_access_config,
}
use cosi.Sidecar.AccessResponse.{
  GrantedAccessApiDetails, translate_driver_grant_bucket_access_response_to_api,
  validate_granted_access,
}
use cosi.Sidecar.AccessSecrets.{
  get_and_validate_all_accessed_buckets, reserve_access_secrets, delete_owned_access_secrets,
}
use cosi.Sidecar.SecretFilling.{update_secrets_with_granted_info}

unfoldable pub protect : Method BucketAccess (Unit {0})
unfolding add_finalizer
protect access =
    let (finalizers, did_add) = add_finalizer protection_finalizer access.metadata.finalizers in
    let a = record access { metadata = record (access.metadata) { finalizers = finalizers } } in
    if did_add
    then call (Call.update_bucket_access a)
        (stored (wrapf "failed to add protection finalizer: %w" []) a)
    else return (ok tt, access)

-- The configuration of the grant, from the access as it then is.
unfoldable pub grant_config : Dict Secret → Method BucketAccess InternalGrantAccessConfig
grant_config secrets access = elim (new_internal_grant_access_config access secrets) [
  | ok cfg ↦ return (ok cfg, access)
  | err e ↦ return (
    err (wrapf "failed to build internal representation of grant-access configuration: %w" [] e),
    access,
  )
]

-- The request, with its buckets in the order of the loop.
abbrev pub grant_request :
    InternalGrantAccessConfig → List (String × BucketGrantAccessConfig) → GrantRequest
grant_request cfg entries = record {
  account_name = cfg.account_name;
  protocol = cfg.shared.protocol;
  authentication_type = cfg.shared.authentication_type;
  service_account_name = cfg.shared.service_account_name;
  parameters = cfg.shared.parameters;
  buckets = rpc_grant_buckets_list entries;
}

abbrev pub granted :
    BucketAccess → Reply Code GrantResponse → Program (Result GrantResponse × BucketAccess)
granted access (done r) = return (ok r, access)
granted access (failed out_of_range text) = return (
  err (
      non_retryable_error
        (wrapf "driver does not support multi-bucket access: %w" [] (rpc_error out_of_range text))),
  access,
)
granted access (failed c text) = return (err (rpc_failure c text), access)

-- The driver's grant.
unfoldable pub ask_for_grant : InternalGrantAccessConfig → Method BucketAccess GrantResponse
unfolding rearrange rpc_grant_buckets_list rpc_failure
ask_for_grant cfg access = call Call.order λ choices.
    call
      (Call.driver_grant_bucket_access
        (grant_request cfg (rearrange choices cfg.access_configs_by_bucket_id)))
      (granted access)

-- The translation of the response, and its test against what was asked for.
unfoldable pub check_response :
    InternalGrantAccessConfig → GrantResponse → Method BucketAccess GrantedAccessApiDetails
check_response cfg resp access =
    elim (translate_driver_grant_bucket_access_response_to_api resp (record {
      expected_protocol = access.spec.protocol;
      authentication_type = access.status.authentication_type;
    })) [
      | err e ↦ return (err (non_retryable_error e), access)
      | ok details ↦ elim (validate_granted_access cfg details) [
        | err e ↦ return (err (non_retryable_error e), access)
        | ok u ↦ return (ok details, access)
      ]
    ]

-- The access as it is ready.
abbrev pub readied : GrantedAccessApiDetails → BucketAccess → BucketAccess
readied details access = record access {
  status = record (access.status) {
    account_id = details.account_id;
    ready_to_use = some true;
    error = none;
  };
}

unfoldable pub complete : GrantedAccessApiDetails → Method BucketAccess (Unit {0})
complete details access = call (Call.update_bucket_access_status (readied details access)) (
    stored (wrapf "failed to update BucketAccess status after successful access grant: %w" [])
      (readied details access))

-- The status before the access is revoked.
abbrev pub withdrawn : BucketAccess → BucketAccess
withdrawn access = record access {
  status = record (access.status) { ready_to_use = some false; error = none };
}

unfoldable pub withdraw : Method BucketAccess (Unit {0})
withdraw access = call (Call.update_bucket_access_status (withdrawn access)) (
    stored (wrapf "failed to update BucketAccess status before deletion: %w" []) (withdrawn access))

abbrev pub revoke_request : BucketAccess → InternalRevokeAccessConfig → RevokeRequest
revoke_request access cfg = record {
  account_id = access.status.account_id;
  protocol = cfg.shared.protocol;
  authentication_type = cfg.shared.authentication_type;
  service_account_name = cfg.shared.service_account_name;
  parameters = cfg.shared.parameters;
  bucket_ids = cfg.revoke_bucket_list;
}

abbrev pub revoked :
    BucketAccess → Reply Code (Unit {0}) → Program (Result (Unit {0}) × BucketAccess)
revoked access (done u) = return (ok tt, access)
revoked access (failed c text) = return (err (rpc_failure c text), access)

-- The call with a configuration, if there is one.
unfoldable pub revoke_as :
    BucketAccess → Result InternalRevokeAccessConfig → Program (Result (Unit {0}) × BucketAccess)
unfolding rpc_failure
revoke_as access (err e) = return (
  err (wrapf "failed to build internal representation of revoke-access configuration: %w" [] e),
  access,
)
revoke_as access (ok cfg) =
    call (Call.driver_revoke_bucket_access (revoke_request access cfg)) (revoked access)

-- `driverRevokeAccess`
unfoldable pub driver_revoke_access : Method BucketAccess (Unit {0})
unfolding revoke_as
driver_revoke_access access = revoke_as access (new_internal_revoke_access_config access)

-- An access without an account was not granted.
unfoldable pub revoke : Method BucketAccess (Unit {0})
unfolding driver_revoke_access
revoke access =
    if access.status.account_id != "" then driver_revoke_access access else return (ok tt, access)

-- The access as it is handed back to the controller.
abbrev pub handed_back : BucketAccess → BucketAccess
handed_back access = record access {
  metadata = record (access.metadata) {
    annotations = insert sidecar_cleanup_finished "" access.metadata.annotations;
  };
}

unfoldable pub hand_back : Method BucketAccess (Unit {0})
unfolding insert
hand_back access = call (Call.update_bucket_access (handed_back access)) (
    stored (wrapf "failed to update BucketAccess after successful access revocation: %w" [])
      (handed_back access))

-- The error that is reported: it names the component.
abbrev pub named : Error → Error
named e = wrapf "COSI Sidecar error: %w" [] e

abbrev pub reported : Error → Reply Reason BucketAccess → Program Outcome
reported e (failed k text) = return (retry e)
reported e (done a) = return (if is_non_retryable e then terminal e else retry e)

-- The driver's grant, and what is recorded of it.
unfoldable pub request_grant : InternalGrantAccessConfig → Method BucketAccess (Unit {0})
request_grant cfg = do
  resp ← ask_for_grant cfg
  details ← check_response cfg resp
  lift (update_secrets_with_granted_info cfg details)
  complete details

module _ (owning : Owning) (driver : DriverInfo) where
  -- The part of `reconcile` below its guards.
  unfoldable pub grant : Method BucketAccess (Unit {0})
  grant = do
    protect
    λ access. lift (get_and_validate_all_accessed_buckets driver access) access
    secrets ← λ access. lift (reserve_access_secrets owning access) access
    cfg ← grant_config secrets
    request_grant cfg

  -- `reconcileDelete`
  unfoldable pub reconcile_delete : Method BucketAccess (Unit {0})
  reconcile_delete = do
    withdraw
    λ access. lift (delete_owned_access_secrets owning access) access
    revoke
    hand_back

  -- `reconcile`
  unfoldable pub reconcile : Method BucketAccess (Unit {0})
  reconcile access =
      if access.status.driver_name != driver.name
      then return (ok tt, access)
      else if not (is_zero access.metadata.deletion_timestamp)
      then reconcile_delete access
      else elim (sidecar_requirements_present access.status) [
        | err e ↦
            return (
              err (non_retryable_error (wrapf "processed a degraded BucketAccess: %w" [] e)),
              access,
            )
        | ok initialized ↦
            if initialized
            then grant access
            else return (
              err (
                  non_retryable_error (
                    errorf "processed a BucketAccess that should be managed by COSI Controller"
                      [])),
              access,
            )
      ]

  -- `err.Error()` is a parameter of what reports an error.
  module _ (render : Error → String) where
    abbrev pub with_error : BucketAccess → Error → ℕ → BucketAccess
    with_error access e t = record access {
      status = record (access.status) {
        ready_to_use = or_to_false access.status.ready_to_use;
        error = some (new_timestamped_error t (render e));
      };
    }

    -- The part of `Reconcile` after `reconcile`. Success leaves the error in the status alone.
    unfoldable pub report : Result (Unit {0}) × BucketAccess → Program Outcome
    unfolding new_timestamped_error is_non_retryable
    report (err e, access) = call Call.now λ t.
        call (Call.update_bucket_access_status (with_error access (named e) t)) (reported (named e))
    report (ok _, access) = return finished

    unfoldable pub fetched : Reply Reason BucketAccess → Program Outcome
    fetched (failed not_found text) = return finished
    fetched (failed already_exists text) = return (retry (api_error already_exists text))
    fetched (failed other_reason text) = return (retry (api_error other_reason text))
    fetched (done access) =
        if not (managed_by_sidecar access) then return finished else bind (reconcile access) report

    -- `Reconcile`
    unfoldable pub reconcile_request : NamespacedName → Program Outcome
    reconcile_request req = call (Call.get_bucket_access req) fetched
