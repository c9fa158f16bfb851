-- ===== src/Controller/AccessClaims.antt =====
-- The calls of `BucketAccessReconciler` in controller/pkg/reconciler/bucketaccess.go on the claims and
-- the Buckets of an access. A Go map from claim names is a list of its entries, with `none` for nil.
pub mod Laws
pub mod Unmarking
pub mod Marking
pub mod Unique
pub mod Reading
use mathlib.Core.Logic.{ite}
use native.Mathlib.Decide.{ℕ_discrete}
use cosi.Base.{
  String, ℕ, suc, Bool, true, false, Option, none, some, List, [], ◌∷◌, ◌++◌, if◌then◌else◌, ◌==◌,
}
use cosi.Base.Dict.{Dict, lookup, insert, erase, has}
use cosi.Base.Lists.{length}
use cosi.Errors.{
  Error, api_error, errorf, wrapf, non_retryable_error, Reason, not_found, already_exists,
  other_reason, Result, ok, err, settle, fail_if_any,
}
use cosi.Api.Names.{has_bucket_access_references}
use cosi.Api.Meta.{NamespacedName}
use cosi.Api.Buckets.{Bucket}
use cosi.Api.Claims.{BucketClaim}
use cosi.Api.Accesses.{BucketAccess, BucketClaimAccess}
use cosi.Effects.{Call, Reply, done, failed, Program, return, call, bind}
use cosi.Effects.Loops.{fold_each, fold_map}
use cosi.Controller.ClaimProvision.{global}
use cosi.Controller.AccessRules.{has_bucket_access_references_to}

-- The count of one more reference to this claim, which was counted so often before.
abbrev pub counted : String → Dict ℕ × Bool → Option ℕ → Dict ℕ × Bool
counted name (counts, repeated) none = (insert name 1 counts, repeated)
counted name (counts, repeated) (some n) = (insert name (suc n) counts, true)

-- The counts of the references, and whether one is repeated.
unfoldable pub count_references : List BucketClaimAccess → Dict ℕ × Bool → Dict ℕ × Bool
unfolding lookup insert
count_references [] s = s
count_references (ref ∷ refs) s =
    count_references refs (counted ref.bucket_claim_name s (lookup ref.bucket_claim_name (s.0)))

-- `validateAllBucketClaimReferencesUnique`. The counts in its message are left out.
unfoldable pub validate_all_bucket_claim_references_unique :
    List BucketClaimAccess → Result (Unit {0})
validate_all_bucket_claim_references_unique refs =
    if (count_references refs ([], false)).1
    then err (
        non_retryable_error (
          errorf "one or more BucketClaims are referenced multiple times, with reference counts: %v"
            []))
    else ok tt

-- The errors of a loop, and the map that it fills.
abbrev pub Filling : Type 0 → Type 0
Filling V = List Error × Dict (Option V)

-- The claim of this name is in the map, as nil if it does not exist.
abbrev pub got_claim : String → Filling BucketClaim → Reply Reason BucketClaim → Filling BucketClaim
got_claim name (errs, claims) (done c) = (errs, insert name (some c) claims)
got_claim name (errs, claims) (failed not_found text) = (errs, insert name none claims)
got_claim name (errs, claims) (failed already_exists text) =
    (errs ++ api_error already_exists text ∷ [], claims)
got_claim name (errs, claims) (failed other_reason text) =
    (errs ++ api_error other_reason text ∷ [], claims)

unfoldable pub get_claim :
    String → Filling BucketClaim → BucketClaimAccess → Program (Filling BucketClaim)
unfolding insert
get_claim namespace s ref =
    call (Call.get_bucket_claim (record { namespace = namespace; name = ref.bucket_claim_name }))
      (λ r. return (got_claim ref.bucket_claim_name s r))

abbrev pub settled : {V : Type 0} → String → Filling V → Program (Result (Dict (Option V)))
settled format s = return (settle format s.1 s.0)

-- `getAllBucketClaims`
unfoldable pub get_all_bucket_claims :
    String → List BucketClaimAccess → Program (Result (Dict (Option BucketClaim)))
get_all_bucket_claims namespace refs =
    bind (fold_each (get_claim namespace) ([], []) refs)
      (settled "could not get one or more BucketClaims: %w")

abbrev pub marked : BucketClaim → BucketClaim
marked c = record c {
  metadata = record (c.metadata) {
    annotations = insert has_bucket_access_references "" c.metadata.annotations;
  };
}

abbrev pub is_marked : BucketClaim → Bool
is_marked c = has has_bucket_access_references c.metadata.annotations

-- The object in the map is the one that was written: it takes the server's answer.
abbrev pub mark_answered :
    String → BucketClaim → Filling BucketClaim → Reply Reason BucketClaim → Filling BucketClaim
mark_answered name sent (errs, claims) (done c) = (errs, (name, some c) ∷ claims)
mark_answered name sent (errs, claims) (failed k text) =
    (errs ++ api_error k text ∷ [], (name, some sent) ∷ claims)

unfoldable pub mark_claim :
    Filling BucketClaim → String × Option BucketClaim → Program (Filling BucketClaim)
unfolding insert has
mark_claim (errs, claims) (name, none) = return (errs, (name, none) ∷ claims)
mark_claim (errs, claims) (name, some c) =
    if is_marked c
    then return (errs, (name, some c) ∷ claims)
    else call (Call.update_bucket_claim (marked c))
        (λ r. return (mark_answered name (marked c) (errs, claims) r))

-- `markAllBucketClaimsAsAccessed`: the map afterwards.
unfoldable pub mark_all_bucket_claims_as_accessed :
    Dict (Option BucketClaim) → Program (Result (Dict (Option BucketClaim)))
mark_all_bucket_claims_as_accessed claims =
    bind (fold_map mark_claim ([], []) claims)
      (settled "failed to mark one or more BucketClaims as having a BucketAccess reference: %w")

abbrev pub unmarked : BucketClaim → BucketClaim
unmarked c = record c {
  metadata = record (c.metadata) {
    annotations = erase has_bucket_access_references c.metadata.annotations;
  };
}

-- An error of an update is added to those before it.
abbrev pub with_failure : {A : Type 0} → List Error → Reply Reason A → List Error
with_failure errs (done c) = errs
with_failure errs (failed k text) = errs ++ api_error k text ∷ []

unfoldable pub unmark_claim :
    List BucketAccess → String → List Error → String × Option BucketClaim → Program (List Error)
unfolding erase has has_bucket_access_references_to
unmark_claim accesses ignored errs (name, none) = return errs
unmark_claim accesses ignored errs (name, some c) =
    if is_marked c
    then (if has_bucket_access_references_to c.metadata.name accesses ignored
        then return errs
        else call (Call.update_bucket_claim (unmarked c)) (λ r. return (with_failure errs r)))
    else return errs

-- `unmarkUnaccessedBucketClaims`. The list of unmarked claims that it returns is only logged.
unfoldable pub unmark_unaccessed_bucket_claims :
    Dict (Option BucketClaim) → List BucketAccess → String → Program (Result (Unit {0}))
unmark_unaccessed_bucket_claims claims accesses ignored =
    bind (fold_map (unmark_claim accesses ignored) [] claims) λ errs. return (
      fail_if_any "failed to unmark one or more BucketClaims without referencing BucketAccesses: %w"
        errs)

abbrev pub got_bucket : String → String → Filling Bucket → Reply Reason Bucket → Filling Bucket
got_bucket name bound (errs, buckets) (done b) = (errs, (name, some b) ∷ buckets)
got_bucket name bound (errs, buckets) (failed not_found text) = (
  errs
      ++ non_retryable_error (
          wrapf "unrecoverable degradation: Bucket %q for BucketClaim %q has gone missing: %w"
            (bound ∷ name ∷ []) (api_error not_found text))
        ∷ [],
  buckets,
)
got_bucket name bound (errs, buckets) (failed already_exists text) =
    (errs ++ api_error already_exists text ∷ [], buckets)
got_bucket name bound (errs, buckets) (failed other_reason text) =
    (errs ++ api_error other_reason text ∷ [], buckets)

unfoldable pub get_bucket_of :
    Filling Bucket → String × Option BucketClaim → Program (Filling Bucket)
get_bucket_of (errs, buckets) (name, none) = return (errs, (name, none) ∷ buckets)
get_bucket_of (errs, buckets) (name, some c) =
    let bound = c.status.bound_bucket_name in
    if bound == ""
    then return (errs, (name, none) ∷ buckets)
    else call (Call.get_bucket (global bound))
        (λ r. return (got_bucket name bound (errs, buckets) r))

-- The last test of `getBucketsForClaims`: as many Buckets as claims.
unfoldable pub check_count :
    Dict (Option BucketClaim)
    → Result (Dict (Option Bucket))
    → Program (Result (Dict (Option Bucket)))
unfolding ℕ_discrete
check_count claims (err e) = return (err e)
check_count claims (ok buckets) = return (
    ite (ℕ_discrete (length buckets) (length claims)) (ok buckets)
      (err (errorf "did not get one or more Buckets, but no errors observed" [])))

-- `getBucketsForClaims`
unfoldable pub get_buckets_for_claims :
    Dict (Option BucketClaim) → Program (Result (Dict (Option Bucket)))
unfolding check_count
get_buckets_for_claims claims =
    bind (fold_map get_bucket_of ([], []) claims)
      λ s. check_count claims (settle "could not get one or more Buckets: %w" s.1 s.0)
