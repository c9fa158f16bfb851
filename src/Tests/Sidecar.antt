-- ===== src/Tests/Sidecar.antt =====
-- The sidecar's BucketReconciler at work, and its theorems there.
use cosi.Base.{String, ◌≡◌, ◌≢◌, ◌↔◌, ◌≤◌, refl, true, false, some, [], ◌∷◌, string_discrete}
use cosi.Base.Lists.{remove}
use cosi.Errors.{ok, err}
use cosi.Effects.Safety.{Safe}
use cosi.Effects.Reporting.{AnyCall}
use cosi.Sidecar.BucketReconciler.Reporting.{IsReported, report-IsReported}
use cosi.Effects.{finished}
use cosi.Effects.Run.{run}
use cosi.Effects.Safety.{Obeys, Safe-Obeys, Post}
use cosi.Sidecar.BucketReconciler.{
  reconcile, provision_with, provision_if_supported, provision, reconcile_delete, clean_up, fetched,
  reconcile_request, report, protect, determine_bucket_id, ensure_recorded, complete, withdraw,
  delete_backend, unprotect, may_delete,
}
use cosi.Sidecar.BucketSteps.{
  object_protocol_list_from_api_list, validate_driver_supports_protocols, dynamic_provision,
  static_provision,
}
use cosi.Translator.{bucket_info_to_api}
use native.Mathlib.Decide.{dec_le, ℕ_discrete}
use cosi.Sidecar.BucketId.{in_class, all_in_class, matches_pattern, validate_bucket_id}
use cosi.Sidecar.BucketId.Laws.{AllAllowed, validate_bucket_id_iff}
use Prim.Native.String.{len}
use cosi.Sidecar.BucketReconciler.Compose.{Anything}
use cosi.Sidecar.BucketReconciler.Identity.{HeldBefore, reconcile_request-HeldBefore}
use cosi.Sidecar.BucketReconciler.Deletion.{DeletesDoomed, reconcile_request-DeletesDoomed}
use cosi.Sidecar.BucketReconciler.Readiness.{ReadyIfProvisioned, reconcile-ReadyIfProvisioned}
use cosi.Base.{ne_of_test}
use cosi.Protocol.S3
use cosi.Protocol.Azure
use cosi.Protocol.Gcs
use cosi.Tests.Data.{no_class, acme, show, fresh_bucket, doomed_bucket, bucket_request, one_bucket}

sidecar : Unit {0}
unfolding run remove string_discrete reconcile_request fetched reconcile report
    provision_if_supported provision_with provision protect determine_bucket_id ensure_recorded
    complete withdraw delete_backend unprotect may_delete reconcile_delete clean_up
    object_protocol_list_from_api_list validate_driver_supports_protocols dynamic_provision
    static_provision bucket_info_to_api matches_pattern in_class all_in_class ℕ_discrete dec_le
sidecar = tt

-- A fresh Bucket is provisioned: it ends ready, under the ID that the driver generated.
fresh_is_provisioned :
    let r = run one_bucket (reconcile_request acme show bucket_request) fresh_bucket [] in
    (r.0 ≡ finished)
    × (r.1.1.status.ready_to_use ≡ some true)
    × (r.1.1.status.bucket_id ≡ "acme-1")
    × (r.1.1.metadata.finalizers ≡ "objectstorage.k8s.io/protection" ∷ [])
unfolding sidecar
fresh_is_provisioned = (refl, refl, refl, refl)

-- A Bucket marked for deletion is deleted in the backend, and then loses its finalizer.
doomed_is_deleted :
    let r = run one_bucket (reconcile_request acme show bucket_request) doomed_bucket [] in
    (r.0 ≡ finished) × (r.1.1.status.ready_to_use ≡ some false) × (r.1.1.metadata.finalizers ≡ [])
unfolding sidecar
doomed_is_deleted = (refl, refl, refl)

reconcile_request-HeldBefore_example :
    Obeys HeldBefore
      (run one_bucket (reconcile_request acme show bucket_request) fresh_bucket []).1.0
reconcile_request-HeldBefore_example =
    Safe-Obeys HeldBefore one_bucket (λ g o. Unit) (reconcile_request acme show bucket_request)
      fresh_bucket (reconcile_request-HeldBefore acme show bucket_request)

reconcile_request-DeletesDoomed_example :
    Obeys
      (DeletesDoomed acme)
      (run one_bucket (reconcile_request acme show bucket_request) doomed_bucket []).1.0
reconcile_request-DeletesDoomed_example =
    Safe-Obeys (DeletesDoomed acme) one_bucket (λ g o. Unit)
      (reconcile_request acme show bucket_request) doomed_bucket
      (reconcile_request-DeletesDoomed acme show bucket_request)

reconcile-ReadyIfProvisioned_example :
    Obeys ReadyIfProvisioned (run one_bucket (reconcile acme fresh_bucket) fresh_bucket []).1.0
reconcile-ReadyIfProvisioned_example =
    Safe-Obeys ReadyIfProvisioned one_bucket (Post Anything) (reconcile acme fresh_bucket)
      fresh_bucket (reconcile-ReadyIfProvisioned acme [] fresh_bucket)

validate_bucket_id_example :
    (validate_bucket_id "acme-1" ≡ ok tt)
    ↔ ((◌≢◌ {A = String} "acme-1" "") × AllAllowed "acme-1" × (len "acme-1" ≤ 2048))
validate_bucket_id_example = validate_bucket_id_iff "acme-1"

report-IsReported_example :
    Safe AnyCall (IsReported "an error" no_class) [] (report acme show (err no_class, fresh_bucket))
report-IsReported_example =
    report-IsReported acme show no_class [] fresh_bucket (ne_of_test "an error" "" refl)
