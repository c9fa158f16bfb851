-- ===== src/Controller/Binding.antt =====
-- How a BucketClaim and its Bucket name each other: the functions of
-- controller/pkg/reconciler/bucketclaim.go that make no call.
pub mod Laws
use cosi.Base.{String, ◌<>◌, Bool, true, false, none, List, [], ◌∷◌, ◌++◌, ◌||◌}
use cosi.Base.{◌==◌, ◌!=◌, if◌then◌else◌}
use cosi.Errors.{Error, errorf, Result, ok, err, settle}
use cosi.Api.Meta.{NamespacedName}
use cosi.Api.Buckets.{Bucket, BucketClass, empty_bucket_status}
use cosi.Api.Claims.{BucketClaim}

-- The name that goes with a claim: the existing Bucket's, or one made from the claim's UID.
unfoldable pub determined_name : BucketClaim → String
determined_name claim =
    if claim.spec.existing_bucket_name != ""
    then claim.spec.existing_bucket_name
    else "bc-" <> claim.metadata.uid

-- `determineBucketName`
unfoldable pub determine_bucket_name : BucketClaim → Result String
unfolding determined_name
determine_bucket_name claim =
    if determined_name claim == ""
    then err (errorf "internal error: determined bucket name is empty" [])
    else if claim.status.bound_bucket_name == ""
    then ok (determined_name claim)
    else if claim.status.bound_bucket_name == determined_name claim
    then ok (determined_name claim)
    else err (
        errorf "unrecoverable degradation: boundBucketName %q does not match determined name %q"
          (claim.status.bound_bucket_name ∷ determined_name claim ∷ []))

-- `if a != b { errs = append(errs, fmt.Errorf(message, a, b)) }`
unfoldable mismatch : String → String → String → List Error
mismatch message a b = if a == b then [] else errorf message (a ∷ b ∷ []) ∷ []

-- `bucketIsBoundToClaim`
unfoldable pub bucket_is_bound_to_claim : Bucket → BucketClaim → Result Bool
unfolding mismatch settle
bucket_is_bound_to_claim bucket claim =
    let ref = bucket.spec.bucket_claim_ref in
    let errs =
      mismatch "Bucket claim ref namespace %q does not match BucketClaim namespace %q" ref.namespace
        claim.metadata.namespace
      ++ mismatch "Bucket claim ref name %q does not match BucketClaim name %q" ref.name
          claim.metadata.name in
    if ref.uid == ""
    then settle "unbound Bucket does not match BucketClaim: %w" false errs
    else settle "bound Bucket does not match BucketClaim: %w" true (
        errs
        ++ mismatch "Bucket claim ref UID %q does not match BucketClaim UID %q" ref.uid
            claim.metadata.uid)

-- `generateIntermediateBucket`. The finalizers are empty on purpose.
unfoldable pub generate_intermediate_bucket : BucketClaim → BucketClass → String → Bucket
generate_intermediate_bucket claim class bucket_name = record {
  metadata = record {
    name = bucket_name;
    namespace = "";
    uid = "";
    generation = 0;
    annotations = [];
    finalizers = [];
    deletion_timestamp = none;
  };
  spec = record {
    driver_name = class.spec.driver_name;
    deletion_policy = class.spec.deletion_policy;
    parameters = class.spec.parameters;
    protocols = claim.spec.protocols;
    bucket_claim_ref = record {
      name = claim.metadata.name;
      namespace = claim.metadata.namespace;
      uid = claim.metadata.uid;
    };
    existing_bucket_id = "";
  };
  status = empty_bucket_status;
}

-- `mapBucketToBucketClaim`, for an object that is a Bucket: the claims to reconcile after its event.
unfoldable map_bucket_to_bucket_claim : Bucket → List NamespacedName
map_bucket_to_bucket_claim bucket =
    let ref = bucket.spec.bucket_claim_ref in
    if ref.name == "" || ref.namespace == ""
    then []
    else record { namespace = ref.namespace; name = ref.name } ∷ []
