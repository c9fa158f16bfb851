-- ===== src/Tests/Grants.antt =====
-- The reconcilers of BucketAccesses at work, and their theorems there.
use cosi.Sidecar.AccessConfig.{InternalRevokeAccessConfig}
use cosi.Base.{[], ◌∷◌, ◌≡◌, ◌↔◌, refl, true, some, none, string_discrete}
use native.Mathlib.Decide.{ℕ_discrete}
use cosi.Base.Dict.{Dict, has}
use cosi.Base.Lists.{All}
use cosi.Errors.{ok}
use cosi.Base.{Option}
use cosi.Api.Buckets.{Bucket}
use cosi.Handoff.{managed_by_sidecar}
use cosi.Effects.{finished}
use cosi.Effects.Run.{run}
use cosi.Effects.Safety.{Safe, Obeys, Safe-Obeys}
use cosi.Controller.BucketAccessReconciler as Controller
use cosi.Controller.BucketAccessReconciler.HandingOver.{reconcile_request-HandsOver}
use cosi.Controller.BucketAccessReconciler.Handing.{HandsOver}
use cosi.Controller.BucketAccessReconciler.LettingGo.{LetsGo, reconcile_request-LetsGo}
use cosi.Controller.AccessClaims.{
  validate_all_bucket_claim_references_unique, get_all_bucket_claims, get_claim,
  mark_all_bucket_claims_as_accessed, mark_claim, get_buckets_for_claims, get_bucket_of,
  check_count, unmark_unaccessed_bucket_claims, unmark_claim, count_references,
}
use cosi.Base.Lists.{remove}
use cosi.Effects.Loops.{rearrange}
use cosi.Handoff.{sidecar_requirements_present}
use cosi.Api.Names.{has_bucket_access_references, sidecar_cleanup_finished}
use cosi.Controller.AccessClaims.Unique.{AreUnique, validate_all_bucket_claim_references_unique_iff}
use cosi.Controller.AccessRules.{
  compile_accessed_buckets, validate_access_against_class, cannot_access_bucket_claims,
  waiting_on_bucket_claims, has_bucket_access_references_to,
}
use cosi.Sidecar.BucketAccessReconciler as Sidecar
use cosi.Sidecar.BucketAccessReconciler.Granting.{Grants, reconcile_request-Grants}
use cosi.Sidecar.BucketAccessReconciler.Revoking.{Revokes, reconcile_request-Revokes}
use cosi.Sidecar.AccessConfig.{
  BucketGrantAccessConfig, InternalGrantAccessConfig, new_internal_grant_access_config,
  new_internal_revoke_access_config,
}
use cosi.Sidecar.AccessResponse.{
  GrantedAccessApiDetails, validate_granted_access,
  translate_driver_grant_bucket_access_response_to_api,
}
use cosi.Sidecar.AccessConfig.Laws.{validate_granted_access_iff}
use cosi.Sidecar.AccessSecrets.{
  validate_bucket_is_ready_for_access, reserve_access_secrets, delete_owned_access_secrets,
  get_and_validate_all_accessed_buckets, check_bucket, reserve_secret, all_reserved, release_secret,
}
use cosi.Sidecar.SecretFilling.{update_secrets_with_granted_info, fill_secret}
use cosi.Sidecar.AccessSecrets.Laws.{IsReadyFor, validate_bucket_is_ready_for_access_iff}
use cosi.Sidecar.AccessSecrets.Ownership.{OwnsSecrets, reserve-and-delete-OwnsSecrets}
use cosi.Protocol.S3
use cosi.System.{ControllerDoes, SidecarDoes, fetched-TakesTurns}
use cosi.Base.{ne_of_test}
use cosi.Tests.World.{keys}
use cosi.Rpc.{s3, key, any_mode, read_only_mode}
use cosi.Tests.Data.{acme, show}
use cosi.Tests.Access.{reader, photos_access}
use cosi.Tests.World.{
  World, one_access, access_request, asked, taken, handed_access, going, going_access, first_owner,
  ready_bucket,
}

reconcile_request-HandsOver_example :
    Obeys HandsOver (run one_access (Controller.reconcile_request show access_request) asked []).1.0
reconcile_request-HandsOver_example =
    Safe-Obeys HandsOver one_access (λ g o. Unit) (Controller.reconcile_request show access_request)
      asked (reconcile_request-HandsOver show access_request)

-- The access once the sidecar has cleaned up.
abbrev cleaned : World
cleaned = record going {
  access = record going_access {
    metadata = record (going_access.metadata) {
      annotations = ("objectstorage.k8s.io/sidecar-cleanup-finished", "") ∷ [];
    };
  };
}

reconcile_request-LetsGo_example :
    Obeys LetsGo (run one_access (Controller.reconcile_request show access_request) cleaned []).1.0
reconcile_request-LetsGo_example =
    Safe-Obeys LetsGo one_access (λ g o. Unit) (Controller.reconcile_request show access_request)
      cleaned (reconcile_request-LetsGo show access_request)

reconcile_request-Grants_example :
    Obeys
      (Grants first_owner acme)
      (run one_access (Sidecar.reconcile_request first_owner acme show access_request) taken []).1.0
reconcile_request-Grants_example =
    Safe-Obeys (Grants first_owner acme) one_access (λ g o. Unit)
      (Sidecar.reconcile_request first_owner acme show access_request) taken
      (reconcile_request-Grants first_owner acme show access_request)

reconcile_request-Revokes_example :
    Obeys
      (Revokes first_owner acme)
      (run one_access (Sidecar.reconcile_request first_owner acme show access_request) going []).1.0
reconcile_request-Revokes_example =
    Safe-Obeys (Revokes first_owner acme) one_access (λ g o. Unit)
      (Sidecar.reconcile_request first_owner acme show access_request) going
      (reconcile_request-Revokes first_owner acme show access_request)

fetched-TakesTurns_example :
    ControllerDoes first_owner acme show Controller.initialize reader
    × SidecarDoes first_owner acme show (Sidecar.grant first_owner acme) handed_access
    × SidecarDoes first_owner acme show (Sidecar.reconcile_delete first_owner acme) going_access
    × ControllerDoes first_owner acme show Controller.reconcile_delete
        (Sidecar.handed_back going_access)
unfolding has compile_accessed_buckets string_discrete
fetched-TakesTurns_example =
    fetched-TakesTurns first_owner acme show keys (("photos", some ready_bucket) ∷ [])
      handed_access.status.accessed_buckets reader handed_access going_access
      (refl, refl, refl, refl, refl, refl, cc)
      (refl, ne_of_test "acme.objects" "" refl, ne_of_test "Key" "" refl) refl
      (refl, refl, refl, refl) refl (refl, refl, refl, refl) cc

validate_all_bucket_claim_references_unique_example :
    (validate_all_bucket_claim_references_unique (photos_access ∷ photos_access ∷ []) ≡ ok tt)
    ↔ AreUnique (photos_access ∷ photos_access ∷ [])
validate_all_bucket_claim_references_unique_example =
    validate_all_bucket_claim_references_unique_iff (photos_access ∷ photos_access ∷ [])

validate_bucket_is_ready_for_access_example :
    (validate_bucket_is_ready_for_access acme ready_bucket "acme-1" ≡ ok tt)
    ↔ IsReadyFor acme "acme-1" ready_bucket
validate_bucket_is_ready_for_access_example =
    validate_bucket_is_ready_for_access_iff acme ready_bucket "acme-1"

abbrev reading : BucketGrantAccessConfig
reading = record {
  object_data_mode = read_only_mode;
  object_metadata_mode = any_mode;
  bucket_metadata_mode = any_mode;
  access_secret_name = "keys";
}

abbrev reading_one : InternalGrantAccessConfig
reading_one = record {
  shared = record {
    protocol = s3;
    authentication_type = key;
    service_account_name = "";
    parameters = [];
  };
  account_name = "ba-a1";
  access_configs_by_bucket_id = ("acme-1", reading) ∷ [];
  secrets_by_name = [];
}

abbrev granted_two : GrantedAccessApiDetails
granted_two = record {
  account_id = "acct-1";
  shared_credential_info = [];
  bucket_info_by_bucket_id = ("acme-1", []) ∷ ("acme-2", []) ∷ [];
}

validate_granted_access_example : (validate_granted_access reading_one granted_two ≡ ok tt) ↔ (
    All
      (λ e. has (e.0) granted_two.bucket_info_by_bucket_id ≡ true)
      reading_one.access_configs_by_bucket_id
    × All
        (λ e. has (e.0) reading_one.access_configs_by_bucket_id ≡ true)
        granted_two.bucket_info_by_bucket_id)
validate_granted_access_example = validate_granted_access_iff reading_one granted_two

reserve-and-delete-OwnsSecrets_example :
    Safe
      (OwnsSecrets first_owner reader)
      (λ g r. Unit)
      []
      (reserve_access_secrets first_owner reader)
    × Safe
        (OwnsSecrets first_owner reader)
        (λ g r. Unit)
        []
        (delete_owned_access_secrets first_owner reader)
reserve-and-delete-OwnsSecrets_example = reserve-and-delete-OwnsSecrets first_owner reader []

abbrev ready_buckets : Dict (Option Bucket)
ready_buckets = ("photos", some ready_bucket) ∷ []

abbrev revoking : InternalRevokeAccessConfig
revoking = record {
  shared = record {
    protocol = s3;
    authentication_type = key;
    service_account_name = "";
    parameters = [];
  };
  account_id = "acct-1";
  revoke_bucket_list = "acme-1" ∷ [];
}

accesses : Unit {0}
unfolding run string_discrete ℕ_discrete Controller.reconcile_request Controller.fetched
    Controller.reconcile Controller.report Controller.protect Controller.initialize
    Controller.initialize_once Controller.initialize_from Controller.check_unique
    Controller.fetch_claims Controller.get_class Controller.check_class Controller.check_blockers
    Controller.check_waitlist Controller.compile Controller.hand_over Controller.reconcile_delete
    Controller.list_accesses Controller.unmark Controller.unprotect get_all_bucket_claims get_claim
    mark_all_bucket_claims_as_accessed mark_claim get_buckets_for_claims get_bucket_of check_count
    unmark_unaccessed_bucket_claims unmark_claim has_bucket_access_references_to
    validate_all_bucket_claim_references_unique validate_access_against_class
    cannot_access_bucket_claims waiting_on_bucket_claims compile_accessed_buckets rearrange remove
    Sidecar.reconcile_request Sidecar.fetched Sidecar.reconcile Sidecar.report Sidecar.protect
    Sidecar.grant Sidecar.grant_config Sidecar.request_grant Sidecar.ask_for_grant
    Sidecar.check_response Sidecar.complete Sidecar.reconcile_delete Sidecar.withdraw Sidecar.revoke
    Sidecar.hand_back get_and_validate_all_accessed_buckets check_bucket
    validate_bucket_is_ready_for_access reserve_access_secrets reserve_secret all_reserved
    new_internal_grant_access_config translate_driver_grant_bucket_access_response_to_api
    validate_granted_access update_secrets_with_granted_info fill_secret
    new_internal_revoke_access_config delete_owned_access_secrets release_secret managed_by_sidecar
    sidecar_requirements_present count_references S3.validate_bucket_info S3.bucket_info_to_api
    S3.validate_credential S3.credential_to_api
accesses = tt

-- The controller marks the claim and hands the access over.
asked_is_handed_over :
    let r = run one_access (Controller.reconcile_request show access_request) asked [] in
    (r.0 ≡ finished)
    × (r.1.1.access ≡ handed_access)
    × (r.1.1.claim.metadata.annotations ≡ (has_bucket_access_references, "") ∷ [])
unfolding accesses
asked_is_handed_over = (refl, refl, refl)

-- The sidecar has it granted.
taken_is_granted :
    let r =
      run one_access (Sidecar.reconcile_request first_owner acme show access_request) taken [] in
    (r.0 ≡ finished)
    × (r.1.1.access.status.ready_to_use ≡ some true)
    × (r.1.1.access.status.account_id ≡ "acct-1")
unfolding accesses
taken_is_granted = (refl, refl, refl)

-- The sidecar has it revoked, and its Secret is deleted.
going_is_handed_back :
    let r =
      run one_access (Sidecar.reconcile_request first_owner acme show access_request) going [] in
    (r.0 ≡ finished)
    × (r.1.1.secret ≡ none)
    × (r.1.1.access.metadata.annotations ≡ (sidecar_cleanup_finished, "") ∷ [])
unfolding accesses
going_is_handed_back = (refl, refl, refl)

-- The controller lets it go.
cleaned_is_let_go :
    let r = run one_access (Controller.reconcile_request show access_request) cleaned [] in
    (r.0 ≡ finished) × (r.1.1.access.metadata.finalizers ≡ [])
unfolding accesses
cleaned_is_let_go = (refl, refl)
