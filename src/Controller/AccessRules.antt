-- ===== src/Controller/AccessRules.antt =====
-- The decisions of `BucketAccessReconciler` in controller/pkg/reconciler/bucketaccess.go that make no
-- call. A Go map from claim names is a list of its entries in the order in which they are visited, with
-- `none` for nil; a message is its format with the arguments.
pub mod Laws
pub mod Compiled
pub mod References
use cosi.Base.{String, Bool, true, false, Option, none, some, List, [], ◌∷◌, ◌++◌, not, ◌&&◌}
use cosi.Base.{◌==◌, if◌then◌else◌}
use cosi.Base.Dict.{Dict, lookup}
use cosi.Base.Lists.{is_empty, contains}
use cosi.Errors.{Error, errorf, Result, ok, err, fail_if_any}
use cosi.Api.Meta.{is_zero, deref_or_false}
use cosi.Api.Names.{auth_service_account}
use cosi.Api.Buckets.{Bucket}
use cosi.Api.Claims.{BucketClaim}
use cosi.Api.Accesses.{
  BucketAccess, BucketAccessSpec, BucketClaimAccess, AccessedBucket, BucketAccessClassSpec,
  DisallowedBucketAccessModes, supports_multi_bucket_access,
}
use cosi.Handoff.{has_any_access_mode}

-- `if test { errs = append(errs, e) }`
unfoldable pub error_if : Bool → Error → List Error
error_if test e = if test then e ∷ [] else []

-- `validateClaimAccessModesAgainstClass`
unfoldable pub validate_claim_access_modes_against_class :
    DisallowedBucketAccessModes → BucketClaimAccess → List Error
unfolding error_if has_any_access_mode contains
validate_claim_access_modes_against_class disallowed ref =
    let modes = ref.access_modes in
    error_if (not (has_any_access_mode modes)) (
      errorf
        "BucketClaim %q must set at least one of accessModes.objectData, objectMetadata, or bucketMetadata"
        (ref.bucket_claim_name ∷ []))
    ++ (error_if (contains disallowed.object_data modes.object_data) (
          errorf "objectData access mode %q requested for BucketClaim %q is disallowed"
            (modes.object_data ∷ ref.bucket_claim_name ∷ []))
        ++ (error_if (contains disallowed.object_metadata modes.object_metadata) (
              errorf "objectMetadata access mode %q requested for BucketClaim %q is disallowed"
                (modes.object_metadata ∷ ref.bucket_claim_name ∷ []))
            ++ error_if (contains disallowed.bucket_metadata modes.bucket_metadata) (
                errorf "bucketMetadata access mode %q requested for BucketClaim %q is disallowed"
                  (modes.bucket_metadata ∷ ref.bucket_claim_name ∷ []))))

-- The loop over the references.
unfoldable pub access_mode_errors :
    DisallowedBucketAccessModes → List BucketClaimAccess → List Error
unfolding validate_claim_access_modes_against_class
access_mode_errors disallowed [] = []
access_mode_errors disallowed (ref ∷ refs) =
    validate_claim_access_modes_against_class disallowed ref ++ access_mode_errors disallowed refs

-- `len(refs) > 1`
abbrev pub is_multiple : List BucketClaimAccess → Bool
is_multiple [] = false
is_multiple (r ∷ []) = false
is_multiple (r ∷ s ∷ refs) = true

-- `ValidateAccessAgainstClass`
unfoldable pub validate_access_against_class :
    BucketAccessClassSpec → BucketAccessSpec → Result (Unit {0})
unfolding error_if access_mode_errors supports_multi_bucket_access fail_if_any
validate_access_against_class class access =
    fail_if_any "one or more features are disallowed by the BucketAccessClass: %w" (
      error_if
        (class.authentication_type == auth_service_account && access.service_account_name == "")
        (errorf "serviceAccountName must be specified" [])
      ++ (error_if (not (supports_multi_bucket_access class) && is_multiple access.bucket_claims)
            (errorf "multi-bucket access is disallowed" [])
          ++ access_mode_errors class.disallowed_bucket_access_modes access.bucket_claims))

-- The inner loop of `hasBucketAccessReferences`.
unfoldable pub refers_to : String → List BucketClaimAccess → Bool
refers_to claim_name [] = false
refers_to claim_name (ref ∷ refs) =
    let rest = refers_to claim_name refs in
    if ref.bucket_claim_name == claim_name then true else rest

-- `hasBucketAccessReferences`
unfoldable pub has_bucket_access_references_to : String → List BucketAccess → String → Bool
unfolding refers_to
has_bucket_access_references_to claim_name [] ignored = false
has_bucket_access_references_to claim_name (access ∷ accesses) ignored =
    let rest = has_bucket_access_references_to claim_name accesses ignored in
    if access.metadata.name == ignored
    then rest
    else if refers_to claim_name access.spec.bucket_claims
    then true
    else rest

abbrev pub Message : Type 0
Message = String × List String

-- What one claim adds to the blockers.
unfoldable pub blockers_of : String → String → BucketClaim → List Message
unfolding contains
blockers_of protocol name claim =
    (if is_zero claim.metadata.deletion_timestamp
      then []
      else ("stuck: data integrity for deleting BucketClaim %q is not guaranteed", name ∷ []) ∷ [])
    ++ (if not (is_empty claim.status.protocols) && not (contains claim.status.protocols protocol)
        then ("BucketClaim %q does not support protocol %q", name ∷ protocol ∷ []) ∷ []
        else [])

-- `cannotAccessBucketClaims`
unfoldable pub cannot_access_bucket_claims :
    Dict (Option BucketClaim) → BucketAccessSpec → List Message
unfolding blockers_of
cannot_access_bucket_claims [] spec = []
cannot_access_bucket_claims ((name, none) ∷ claims) spec = cannot_access_bucket_claims claims spec
cannot_access_bucket_claims ((name, some claim) ∷ claims) spec =
    blockers_of spec.protocol name claim ++ cannot_access_bucket_claims claims spec

-- What a claim with a bound Bucket waits for.
unfoldable pub waiting_on_bucket : String → BucketClaim → Option (Option Bucket) → List Message
waiting_on_bucket name claim none =
    (
      "internal error: missing Bucket %q for BucketClaim %q",
      claim.status.bound_bucket_name ∷ name ∷ [],
    )
    ∷ []
waiting_on_bucket name claim (some none) =
    (
      "waiting for Bucket %q for BucketClaim %q to exist",
      claim.status.bound_bucket_name ∷ name ∷ [],
    )
    ∷ []
waiting_on_bucket name claim (some (some bucket)) =
    if bucket.status.bucket_id == ""
    then (
      "waiting for Bucket %q for BucketClaim %q to finish provisioning",
      claim.status.bound_bucket_name ∷ name ∷ [],
    )
      ∷ []
    else if deref_or_false claim.status.ready_to_use
    then []
    else (
      "waiting for BucketClaim %q to finish provisioning Bucket %q",
      name ∷ claim.status.bound_bucket_name ∷ [],
    )
      ∷ []

unfoldable pub waiting_on_claim : String → Option BucketClaim → Dict (Option Bucket) → List Message
unfolding waiting_on_bucket lookup
waiting_on_claim name none buckets = ("waiting for BucketClaim %q to exist", name ∷ []) ∷ []
waiting_on_claim name (some claim) buckets =
    if claim.status.bound_bucket_name == ""
    then ("waiting for BucketClaim %q to be bound to a Bucket", name ∷ []) ∷ []
    else waiting_on_bucket name claim (lookup name buckets)

-- `waitingOnBucketClaims`
unfoldable pub waiting_on_bucket_claims :
    Dict (Option BucketClaim) → Dict (Option Bucket) → List Message
unfolding waiting_on_claim
waiting_on_bucket_claims [] buckets = []
waiting_on_bucket_claims ((name, claim) ∷ claims) buckets =
    waiting_on_claim name claim buckets ++ waiting_on_bucket_claims claims buckets

abbrev pub accessed : BucketClaimAccess → Bucket → AccessedBucket
accessed ref bucket = record {
  bucket_name = bucket.metadata.name;
  bucket_id = bucket.status.bucket_id;
  bucket_claim_name = ref.bucket_claim_name;
}

-- An entry that was made but not filled.
abbrev blank : AccessedBucket
blank = record { bucket_name = ""; bucket_id = ""; bucket_claim_name = "" }

abbrev missing_bucket : String → Error
missing_bucket name = errorf "internal error: missing Bucket for BucketClaim %q" (name ∷ [])

-- One step of the loop below, after the rest of the list: the entries, and the claims without an ID.
unfoldable pub compile_step :
    BucketClaimAccess
    → Bucket
    → List AccessedBucket × List String
    → List AccessedBucket × List String
compile_step ref bucket rest =
    if bucket.status.bucket_id == ""
    then (blank ∷ rest.0, ref.bucket_claim_name ∷ rest.1)
    else (accessed ref bucket ∷ rest.0, rest.1)

unfoldable pub compile_loop :
    List BucketClaimAccess → Dict (Option Bucket) → Result (List AccessedBucket × List String)
unfolding lookup compile_step
compile_loop [] buckets = ok ([], [])
compile_loop (ref ∷ refs) buckets = elim (lookup ref.bucket_claim_name buckets) [
  | none ↦ err (missing_bucket ref.bucket_claim_name)
  | some found ↦ elim found [
    | none ↦ err (missing_bucket ref.bucket_claim_name)
    | some bucket ↦ elim (compile_loop refs buckets) [
      | err e ↦ err e
      | ok rest ↦ ok (compile_step ref bucket rest)
    ]
  ]
]

abbrev with_ids : List AccessedBucket × List String → Result (List AccessedBucket)
with_ids r =
    if is_empty (r.1)
    then ok (r.0)
    else err (errorf "one or more Buckets are missing IDs: %v" (r.1))

-- `compileAccessedBuckets`
unfoldable pub compile_accessed_buckets :
    List BucketClaimAccess → Dict (Option Bucket) → Result (List AccessedBucket)
unfolding compile_loop
compile_accessed_buckets refs buckets = elim (compile_loop refs buckets) [
  | err e ↦ err e
  | ok r ↦ with_ids r
]
