-- ===== src/Controller/Binding/Laws.antt =====
-- When a Bucket counts as bound to a claim, and under which name.
use cosi.Base.{String, true, false, ◌≡◌, ◌≢◌, ◌↔◌, ◌⊎◌, arith}
use cosi.Errors.{ok}
use cosi.Api.Buckets.{Bucket, BucketClass}
use cosi.Api.Claims.{BucketClaim}
use cosi.Controller.Binding.{
  determined_name, determine_bucket_name, bucket_is_bound_to_claim, generate_intermediate_bucket,
}

-- A Bucket is bound to a claim exactly when its reference has the claim's namespace and name, and
-- the claim's UID, which is not empty.
pub bucket_is_bound_to_claim-eq-true_iff :
    (b : Bucket) (c : BucketClaim)
    → (bucket_is_bound_to_claim b c ≡ ok true) ↔ (
        (b.spec.bucket_claim_ref.namespace ≡ c.metadata.namespace)
        × (b.spec.bucket_claim_ref.name ≡ c.metadata.name)
        × (b.spec.bucket_claim_ref.uid ≡ c.metadata.uid)
        × (c.metadata.uid ≢ ""))
unfolding bucket_is_bound_to_claim
bucket_is_bound_to_claim-eq-true_iff b c = ground arith

-- A Bucket waits to be bound to a claim exactly when its reference has no UID and the claim's
-- namespace and name.
bucket_is_bound_to_claim-eq-false_iff :
    (b : Bucket) (c : BucketClaim)
    → (bucket_is_bound_to_claim b c ≡ ok false) ↔ (
        (b.spec.bucket_claim_ref.namespace ≡ c.metadata.namespace)
        × (b.spec.bucket_claim_ref.name ≡ c.metadata.name)
        × (b.spec.bucket_claim_ref.uid ≡ ""))
unfolding bucket_is_bound_to_claim
bucket_is_bound_to_claim-eq-false_iff b c = ground arith

-- The Bucket that is made for a claim with a UID is bound to the claim.
pub generate_intermediate_bucket-IsBound :
    (claim : BucketClaim) (class : BucketClass) (name : String)
    → claim.metadata.uid ≢ ""
    → bucket_is_bound_to_claim (generate_intermediate_bucket claim class name) claim ≡ ok true
unfolding bucket_is_bound_to_claim generate_intermediate_bucket
generate_intermediate_bucket-IsBound claim class name h = ground arith

-- The name of a claim's Bucket is found exactly when it is not empty and the claim is bound to no
-- name or to this one.
pub determine_bucket_name_iff :
    (c : BucketClaim) (name : String)
    → (determine_bucket_name c ≡ ok name) ↔ (
        (determined_name c ≡ name)
        × (name ≢ "")
        × ((c.status.bound_bucket_name ≡ "") ⊎ (c.status.bound_bucket_name ≡ name)))
unfolding determine_bucket_name
determine_bucket_name_iff c name = ground arith
