-- ===== src/Controller/ClaimProvision.antt =====
-- The provisioning part of `BucketClaimReconciler` in controller/pkg/reconciler/bucketclaim.go: finds
-- or creates the Bucket of a BucketClaim and binds the two. The claim is the state of a `Method`.
use cosi.Base.{String, Bool, Option, none, some, [], ◌∷◌, not}
use cosi.Base.{◌==◌, ◌!=◌, if◌then◌else◌}
use cosi.Base.Lists.{is_empty}
use cosi.Errors.{
  api_error, errorf, wrapf, non_retryable_error, Reason, not_found, already_exists, other_reason,
  Result, ok, err,
}
use cosi.Api.Meta.{NamespacedName, deref_or_false, or_to_false, add_finalizer}
use cosi.Api.Names.{protection_finalizer}
use cosi.Api.Buckets.{Bucket, BucketClass}
use cosi.Api.Claims.{BucketClaim}
use cosi.Effects.{Call, Reply, done, failed, Program, return, call, Method, ◌>>=◌, ◌>>◌, stored}
use cosi.Controller.Binding.{bucket_is_bound_to_claim, generate_intermediate_bucket}

-- A cluster-scoped name.
abbrev pub global : String → NamespacedName
global name = record { namespace = ""; name = name }

unfoldable pub protect : Method BucketClaim (Unit {0})
unfolding add_finalizer
protect claim =
    let (finalizers, did_add) = add_finalizer protection_finalizer claim.metadata.finalizers in
    let c = record claim { metadata = record (claim.metadata) { finalizers = finalizers } } in
    if did_add
    then call (Call.update_bucket_claim c)
        (stored (wrapf "failed to add protection finalizer: %w" []) c)
    else return (ok tt, claim)

abbrev pub created :
    BucketClaim → Reply Reason Bucket → Program (Result (Option Bucket) × BucketClaim)
created claim (failed k text) = return (err (api_error k text), claim)
created claim (done b) = return (ok (some b), claim)

unfoldable pub create_from :
    String → BucketClaim → Reply Reason BucketClass → Program (Result (Option Bucket) × BucketClaim)
unfolding generate_intermediate_bucket
create_from name claim (failed k text) = return (err (api_error k text), claim)
create_from name claim (done class) =
    call (Call.create_bucket (generate_intermediate_bucket claim class name)) (created claim)

-- `createIntermediateBucket`
unfoldable pub create_intermediate_bucket : String → Method BucketClaim (Option Bucket)
unfolding create_from
create_intermediate_bucket name claim =
    if claim.spec.bucket_class_name == ""
    then return (
      err (non_retryable_error (errorf "BucketClaim cannot have empty bucketClassName" [])),
      claim,
    )
    else call (Call.get_bucket_class (global claim.spec.bucket_class_name)) (create_from name claim)

-- Where the Bucket does not exist: a bound claim has lost it, a static one waits for it, and for any
-- other it is created.
unfoldable pub missing : String → Bool → Method BucketClaim (Option Bucket)
unfolding create_intermediate_bucket
missing name static claim =
    if claim.status.bound_bucket_name != ""
    then return (
      err (
          non_retryable_error (
            errorf
              "unrecoverable degradation: BucketClaim is bound to Bucket %q that no longer exists"
              (claim.status.bound_bucket_name ∷ []))),
      claim,
    )
    else if static
    then return (ok none, claim)
    else create_intermediate_bucket name claim

unfoldable pub found :
    String
    → Bool
    → BucketClaim
    → Reply Reason Bucket
    → Program (Result (Option Bucket) × BucketClaim)
unfolding missing
found name static claim (done b) = return (ok (some b), claim)
found name static claim (failed not_found text) = missing name static claim
found name static claim (failed already_exists text) =
    return (err (api_error already_exists text), claim)
found name static claim (failed other_reason text) =
    return (err (api_error other_reason text), claim)

-- The Bucket of the claim, or none while a static one is waited for.
unfoldable pub find_bucket : String → Bool → Method BucketClaim (Option Bucket)
unfolding found
find_bucket name static claim = call (Call.get_bucket (global name)) (found name static claim)

abbrev pub uid_set : BucketClaim → Reply Reason Bucket → Program (Result Bucket × BucketClaim)
uid_set claim (done b) = return (ok b, claim)
uid_set claim (failed k text) =
    return
      (err (wrapf "failed to set bucketClaimRef.UID on Bucket: %w" [] (api_error k text)), claim)

-- `ensureStaticBucketBound`
unfoldable pub ensure_static_bucket_bound : Bucket → Method BucketClaim Bucket
ensure_static_bucket_bound bucket claim =
    let ref = bucket.spec.bucket_claim_ref in
    if ref.uid == claim.metadata.uid
    then return (ok bucket, claim)
    else if ref.uid != ""
    then return (
      err (
          non_retryable_error (
            errorf "Bucket claim ref UID %q does not match BucketClaim UID %q"
              (ref.uid ∷ claim.metadata.uid ∷ []))),
      claim,
    )
    else call
        (Call.update_bucket (record bucket {
          spec = record (bucket.spec) {
            bucket_claim_ref = record ref { uid = claim.metadata.uid };
          };
        }))
        (uid_set claim)

-- The Bucket's side of the binding. An unbound dynamic Bucket is reported with `%w` of the nil error
-- that the test before it returned, so the message wraps nothing.
unfoldable pub ensure_bound : Bool → Bucket → Method BucketClaim Bucket
ensure_bound static bucket claim = elim (bucket_is_bound_to_claim bucket claim) [
  | err e ↦ return (err (non_retryable_error e), claim)
  | ok is_bound ↦
      if is_bound
      then return (ok bucket, claim)
      else if static
      then ensure_static_bucket_bound bucket claim
      else return (err (non_retryable_error (errorf "dynamic Bucket is malformed: %w" [])), claim)
]

-- The claim's side of the binding.
unfoldable pub bind_claim : String → Method BucketClaim (Unit {0})
bind_claim name claim =
    let c = record claim {
      status = record (claim.status) {
        ready_to_use = or_to_false claim.status.ready_to_use;
        bound_bucket_name = name;
      };
    } in
    if claim.status.bound_bucket_name == ""
    then call (Call.update_bucket_claim_status c)
        (stored (wrapf "failed to bind BucketClaim to Bucket: %w" []) c)
    else return (ok tt, claim)

-- What a ready Bucket tells its claim.
unfoldable pub finish : Bucket → Method BucketClaim (Unit {0})
finish bucket claim =
    let c = record claim {
      status = record (claim.status) {
        ready_to_use = bucket.status.ready_to_use;
        protocols = bucket.status.protocols;
        error = none;
      };
    } in
    if not (deref_or_false bucket.status.ready_to_use)
    then return (ok tt, claim)
    else if bucket.status.bucket_id == ""
    then return (err (non_retryable_error (errorf "provisioned Bucket has no bucket ID" [])), claim)
    else if is_empty bucket.status.protocols
    then return
        (err (non_retryable_error (errorf "provisioned Bucket supports no protocols" [])), claim)
    else call (Call.update_bucket_claim_status c) (stored (λ e. e) c)

unfoldable pub bind_to : String → Bool → Option Bucket → Method BucketClaim (Unit {0})
bind_to name static none claim = return (ok tt, claim)
bind_to name static (some bucket) claim =
    (do bound ← ensure_bound static bucket; bind_claim name; finish bound) claim

-- The part of `reconcile` below its guards.
unfoldable pub provision : String → Bool → Method BucketClaim (Unit {0})
provision name static = do protect; bucket ← find_bucket name static; bind_to name static bucket
