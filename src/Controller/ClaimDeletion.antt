-- ===== src/Controller/ClaimDeletion.antt =====
-- The deletion part of `BucketClaimReconciler` in controller/pkg/reconciler/bucketclaim.go.
use cosi.Base.{String, Bool, false, none, some, [], ◌∷◌}
use cosi.Base.{◌==◌, if◌then◌else◌}
use cosi.Base.Dict.{has, insert}
use cosi.Errors.{
  Error, api_error, errorf, wrapf, non_retryable_error, Reason, not_found, already_exists,
  other_reason, Result, ok, err,
}
use cosi.Api.Meta.{is_zero, remove_finalizer}
use cosi.Api.Names.{protection_finalizer, bucket_claim_being_deleted, retain, delete}
use cosi.Api.Buckets.{Bucket}
use cosi.Api.Claims.{BucketClaim}
use cosi.Effects.{Call, Reply, done, failed, Program, return, call, Method, ◌>>=◌, ◌>>◌, stored}
use cosi.Controller.Binding.{bucket_is_bound_to_claim}
use cosi.Controller.ClaimProvision.{global}

-- `removeClaimFinalizer`
unfoldable pub remove_claim_finalizer : Method BucketClaim (Unit {0})
remove_claim_finalizer claim =
    let c = record claim {
      metadata = record (claim.metadata) {
        finalizers = remove_finalizer protection_finalizer claim.metadata.finalizers;
      };
    } in
    call (Call.update_bucket_claim c) (stored (wrapf "failed to remove finalizer: %w" []) c)

abbrev annotated : BucketClaim → Reply Reason Bucket → Program (Result Bucket × BucketClaim)
annotated claim (done b) = return (ok b, claim)
annotated claim (failed k text) = return (
  err (
      wrapf "failed to annotate Bucket to indicate BucketClaim is being deleted: %w" []
        (api_error k text)),
  claim,
)

-- `applyBucketClaimIsDeletingAnnotation`: the Bucket with the annotation.
unfoldable pub annotate : Bucket → Method BucketClaim Bucket
unfolding has insert
annotate bucket claim =
    if has bucket_claim_being_deleted bucket.metadata.annotations
    then return (ok bucket, claim)
    else call
        (Call.update_bucket (record bucket {
          metadata = record (bucket.metadata) {
            annotations = insert bucket_claim_being_deleted "" bucket.metadata.annotations;
          };
        }))
        (annotated claim)

abbrev bucket_deleted :
    BucketClaim → Reply Reason (Unit {0}) → Program (Result (Unit {0}) × BucketClaim)
bucket_deleted claim (done u) = return (ok tt, claim)
bucket_deleted claim (failed k text) =
    return (err (wrapf "failed to delete Bucket: %w" [] (api_error k text)), claim)

-- A Bucket that is not being deleted yet is deleted; the claim waits until it is gone.
unfoldable pub delete_bucket_of : Bucket → Method BucketClaim (Unit {0})
delete_bucket_of bucket claim =
    if is_zero bucket.metadata.deletion_timestamp
    then call (Call.delete_bucket bucket) (bucket_deleted claim)
    else return (ok tt, claim)

-- The switch on the deletion policy of a bound Bucket.
unfoldable pub release : Bucket → Method BucketClaim (Unit {0})
release bucket claim =
    if bucket.spec.deletion_policy == retain
    then (do b ← annotate bucket; remove_claim_finalizer) claim
    else if bucket.spec.deletion_policy == delete
    then (do b ← annotate bucket; delete_bucket_of b) claim
    else return (
      err (
          non_retryable_error
            (errorf "unknown Bucket deletion policy %q" (bucket.spec.deletion_policy ∷ []))),
      claim,
    )

abbrev ask_administrator : Error → Error
ask_administrator e = non_retryable_error (
    wrapf "%s: %w"
      ("administrator must resolve unexpected error: dynamic Bucket does not reference this BucketClaim"
        ∷ [])
      e)

-- An existing Bucket of the name, by what its reference says.
unfoldable pub part_from : Bool → Bucket → Method BucketClaim (Unit {0})
part_from static bucket claim = elim (bucket_is_bound_to_claim bucket claim) [
  | err e ↦
      if static then remove_claim_finalizer claim else return (err (ask_administrator e), claim)
  | ok is_bound ↦ if is_bound then release bucket claim else remove_claim_finalizer claim
]

unfoldable pub part_from_found :
    Bool → BucketClaim → Reply Reason Bucket → Program (Result (Unit {0}) × BucketClaim)
part_from_found static claim (done bucket) = part_from static bucket claim
part_from_found static claim (failed not_found text) = remove_claim_finalizer claim
part_from_found static claim (failed already_exists text) =
    return (err (api_error already_exists text), claim)
part_from_found static claim (failed other_reason text) =
    return (err (api_error other_reason text), claim)

-- The claim, no longer ready.
abbrev pub withdrawn : BucketClaim → BucketClaim
withdrawn claim = record claim {
  status = record (claim.status) { ready_to_use = some false; error = none };
}

-- The status update before anything is taken apart.
unfoldable pub withdraw : Method BucketClaim (Unit {0})
withdraw claim =
    call (Call.update_bucket_claim_status (withdrawn claim)) (
      stored (wrapf "failed to update BucketClaim status before deletion: %w" []) (withdrawn claim))

unfoldable pub find_and_part : String → Bool → Method BucketClaim (Unit {0})
find_and_part name static claim =
    call (Call.get_bucket (global name)) (part_from_found static claim)

-- `reconcileDelete`
unfoldable pub reconcile_delete : String → Bool → Method BucketClaim (Unit {0})
reconcile_delete name static = do withdraw; find_and_part name static
