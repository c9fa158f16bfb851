-- ===== src/Tests/Controller.antt =====
-- The controller's BucketClaimReconciler at work, and its theorems there.
use cosi.Base.{String, ◌≡◌, ◌≢◌, refl, true, none, some, [], ◌∷◌, string_discrete, ne_of_test}
use cosi.Base.Lists.{remove}
use cosi.Base.{◌↔◌}
use cosi.Errors.{ok, err, not_found}
use cosi.Effects.Safety.{Safe}
use cosi.Effects.Reporting.{AnyCall}
use cosi.Controller.BucketClaimReconciler.Reporting.{IsTold, report-IsTold}
use cosi.Api.Names.{protocol_s3}
use cosi.Api.Buckets.{Bucket, empty_bucket_status}
use cosi.Effects.{finished, done, failed}
use cosi.Effects.Run.{run}
use cosi.Effects.Safety.{Obeys, Safe-Obeys}
use cosi.Controller.Binding.{
  determine_bucket_name, bucket_is_bound_to_claim, generate_intermediate_bucket,
}
use cosi.Controller.Binding.Laws.{
  bucket_is_bound_to_claim-eq-true_iff, generate_intermediate_bucket-IsBound,
}
use cosi.Controller.ClaimProvision.{
  protect, find_bucket, bind_to, ensure_bound, bind_claim, finish, provision,
}
use cosi.Controller.ClaimDeletion.{
  withdraw, find_and_part, part_from_found, part_from, release, annotate, delete_bucket_of,
  remove_claim_finalizer, reconcile_delete,
}
use cosi.Controller.BucketClaimReconciler.{
  reconcile, reconcile_named, report, fetched, reconcile_request,
}
use cosi.Controller.BucketClaimReconciler.Protection.{
  KeepsProtection, reconcile_request-KeepsProtection,
}
use cosi.Controller.BucketClaimReconciler.BindingOnce.{Once, reconcile_request-Once}
use cosi.Effects.Ending.{Ends, Well}
use cosi.Controller.BucketClaimReconciler.Progress.{Serves}
use cosi.Controller.BucketClaimReconciler.Readiness.{
  IsReadyAs, IsWaiting, reconcile-IsReadyAs, reconcile-IsWaiting,
}
use cosi.Tests.Data.{
  no_class, Cluster, show, fresh_bucket, photos_claim, gold, claim_request, one_claim, leaving,
}

controller : Unit {0}
unfolding run remove string_discrete reconcile_request fetched reconcile reconcile_named report
    provision protect find_bucket bind_to ensure_bound bind_claim finish withdraw find_and_part
    part_from_found part_from release annotate delete_bucket_of remove_claim_finalizer
    reconcile_delete determine_bucket_name bucket_is_bound_to_claim
controller = tt

abbrev arriving : Cluster
arriving = record { claim = photos_claim; bucket = none }

-- A new claim gets its intermediate Bucket and is bound to it.
claim_is_bound :
    let r = run one_claim (reconcile_request show claim_request) arriving [] in
    (r.0 ≡ finished)
    × (r.1.1.claim.status.bound_bucket_name ≡ "bc-u1")
    × (r.1.1.bucket ≡ some (generate_intermediate_bucket photos_claim gold "bc-u1"))
unfolding controller generate_intermediate_bucket
claim_is_bound = (refl, refl, refl)

-- A claim with a Bucket to delete waits for it: the Bucket is deleted, the finalizer stays.
claim_waits :
    let r = run one_claim (reconcile_request show claim_request) leaving [] in
    (r.0 ≡ finished)
    × (r.1.1.bucket ≡ none)
    × (r.1.1.claim.metadata.finalizers ≡ "objectstorage.k8s.io/protection" ∷ [])
unfolding controller
claim_waits = (refl, refl, refl)

reconcile_request-KeepsProtection_example :
    Obeys KeepsProtection (run one_claim (reconcile_request show claim_request) leaving []).1.0
reconcile_request-KeepsProtection_example =
    Safe-Obeys KeepsProtection one_claim (λ g o. Unit) (reconcile_request show claim_request)
      leaving (reconcile_request-KeepsProtection show claim_request)

reconcile_request-Once_example :
    Obeys Once (run one_claim (reconcile_request show claim_request) arriving []).1.0
reconcile_request-Once_example =
    Safe-Obeys Once one_claim (λ g o. Unit) (reconcile_request show claim_request) arriving
      (reconcile_request-Once show claim_request)

bucket_is_bound_to_claim-eq-true_example :
    (bucket_is_bound_to_claim fresh_bucket photos_claim ≡ ok true) ↔ (
      (◌≡◌ {A = String} "app" "app")
      × (◌≡◌ {A = String} "photos" "photos")
      × (◌≡◌ {A = String} "u1" "u1")
      × (◌≢◌ {A = String} "u1" ""))
bucket_is_bound_to_claim-eq-true_example =
    bucket_is_bound_to_claim-eq-true_iff fresh_bucket photos_claim

generate_intermediate_bucket-IsBound_example :
    bucket_is_bound_to_claim (generate_intermediate_bucket photos_claim gold "bc-u1") photos_claim
    ≡ ok true
generate_intermediate_bucket-IsBound_example =
    generate_intermediate_bucket-IsBound photos_claim gold "bc-u1" (ne_of_test "u1" "" refl)

-- The Bucket of the claim, provisioned.
abbrev ready_bucket : Bucket
ready_bucket = record fresh_bucket {
  status = record empty_bucket_status {
    ready_to_use = some true;
    bucket_id = "acme-1";
    protocols = protocol_s3 ∷ [];
  };
}

reconcile-IsReadyAs_example :
    Ends
      (Serves "bc-u1" (done ready_bucket) "gold" gold)
      (Well (IsReadyAs ready_bucket))
      []
      (reconcile photos_claim)
unfolding determine_bucket_name bucket_is_bound_to_claim string_discrete
reconcile-IsReadyAs_example =
    reconcile-IsReadyAs gold ready_bucket photos_claim [] refl refl refl refl
      (ne_of_test "acme-1" "" refl) refl

reconcile-IsWaiting_example :
    Ends
      (Serves "bc-u1" (failed not_found "no bucket") "gold" gold)
      (Well (IsWaiting "bc-u1" photos_claim gold))
      []
      (reconcile photos_claim)
unfolding determine_bucket_name string_discrete
reconcile-IsWaiting_example =
    reconcile-IsWaiting "bc-u1" "no bucket" gold photos_claim [] refl refl (ne_of_test "u1" "" refl)
      refl (ne_of_test "gold" "" refl) refl refl

report-IsTold_example :
    Safe AnyCall
      (IsTold "an error" no_class photos_claim)
      []
      (report show (err no_class, photos_claim))
report-IsTold_example = report-IsTold show no_class photos_claim (ne_of_test "an error" "" refl)
