-- ===== src/Controller/BucketClaimReconciler.antt =====
-- `BucketClaimReconciler` of controller/pkg/reconciler/bucketclaim.go: the whole reconcile request,
-- and what it reports in the status of the BucketClaim.
pub mod Compose
pub mod Protection
pub mod BindingOnce
pub mod Progress
pub mod Reporting
pub mod Readiness
use cosi.Base.{String, ℕ, Bool, true, false, Option, none, some, not}
use cosi.Base.{◌==◌, ◌!=◌, if◌then◌else◌}
use cosi.Errors.{
  Error, api_error, non_retryable_error, Reason, not_found, already_exists, other_reason, Result,
  ok, err, is_non_retryable,
}
use cosi.Api.Meta.{
  NamespacedName, TimestampedError, is_zero, is_none, or_to_false, new_timestamped_error,
}
use cosi.Api.Claims.{BucketClaim}
use cosi.Effects.{
  Call, Reply, done, failed, Program, return, call, bind, Method, Outcome, finished, retry,
  terminal,
}
use cosi.Controller.Binding.{determine_bucket_name}
use cosi.Controller.ClaimProvision.{provision}
use cosi.Controller.ClaimDeletion.{reconcile_delete}

-- The claim is provisioned or, if it is being deleted, taken apart from its Bucket.
unfoldable pub reconcile_named : Result String → Method BucketClaim (Unit {0})
reconcile_named (err e) claim = return (err (non_retryable_error e), claim)
reconcile_named (ok name) claim =
    let static = claim.spec.existing_bucket_name != "" in
    if not (is_zero claim.metadata.deletion_timestamp)
    then reconcile_delete name static claim
    else provision name static claim

-- `reconcile`
unfoldable pub reconcile : Method BucketClaim (Unit {0})
reconcile claim = reconcile_named (determine_bucket_name claim) claim

abbrev message_is : String → Option String → Bool
message_is text none = false
message_is text (some m) = m == text

-- The status tells this error already: it has a time and this message.
abbrev pub tells : Option TimestampedError → String → Bool
tells none text = false
tells (some e) text = if is_none e.time then false else message_is text e.message

abbrev pub cleared : BucketClaim → BucketClaim
cleared claim = record claim {
  status = record (claim.status) {
    ready_to_use = or_to_false claim.status.ready_to_use;
    error = none;
  };
}

-- The error to hand to the runtime, where the status needed no update or was updated.
abbrev outcome_of : Error → Outcome
outcome_of e = if is_non_retryable e then terminal e else retry e

abbrev pub reported : Error → Reply Reason BucketClaim → Program Outcome
reported e (failed k text) = return (retry e)
reported e (done c) = return (outcome_of e)

abbrev pub cleared_or_retry : Reply Reason BucketClaim → Program Outcome
cleared_or_retry (failed k text) = return (retry (api_error k text))
cleared_or_retry (done c) = return finished

-- `err.Error()` is a parameter of what reports an error.
module _ (render : Error → String) where
  abbrev pub with_error : BucketClaim → Error → ℕ → BucketClaim
  with_error claim e t = record claim {
    status = record (claim.status) {
      ready_to_use = or_to_false claim.status.ready_to_use;
      error = some (new_timestamped_error t (render e));
    };
  }

  -- The part of `Reconcile` after `reconcile`. An error that the status tells already is not written
  -- again, and its time stays.
  unfoldable pub report : Result (Unit {0}) × BucketClaim → Program Outcome
  report (err e, claim) =
      if tells claim.status.error (render e)
      then (if is_none claim.status.ready_to_use
          then call
              (Call.update_bucket_claim_status
                (record claim { status = record (claim.status) { ready_to_use = some false } }))
              (reported e)
          else return (outcome_of e))
      else call Call.now
          λ t. call (Call.update_bucket_claim_status (with_error claim e t)) (reported e)
  report (ok _, claim) =
      if is_none claim.status.error
      then return finished
      else if is_zero claim.metadata.deletion_timestamp
      then call (Call.update_bucket_claim_status (cleared claim)) cleared_or_retry
      else return finished

  unfoldable pub fetched : Reply Reason BucketClaim → Program Outcome
  fetched (failed not_found text) = return finished
  fetched (failed already_exists text) = return (retry (api_error already_exists text))
  fetched (failed other_reason text) = return (retry (api_error other_reason text))
  fetched (done claim) = bind (reconcile claim) report

  -- `Reconcile`
  unfoldable pub reconcile_request : NamespacedName → Program Outcome
  reconcile_request req = call (Call.get_bucket_claim req) fetched
