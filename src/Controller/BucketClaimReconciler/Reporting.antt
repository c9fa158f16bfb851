-- ===== src/Controller/BucketClaimReconciler/Reporting.antt =====
-- What `Reconcile` of a BucketClaim makes of the error of `reconcile`.
use cosi.Base.{String, List, [], ◌∷◌, if◌then◌else◌, ◌≡◌, ◌≢◌, arith}
use cosi.Errors.{Error, err, is_non_retryable}
use cosi.Api.Claims.{BucketClaim}
use cosi.Api.Meta.{new_timestamped_error}
use cosi.Effects.{Call, done, failed, Outcome, retry, terminal}
use cosi.Effects.Run.{Event}
use cosi.Effects.Safety.{Safe}
use cosi.Effects.Reporting.{Shows, AnyCall}
use cosi.Controller.BucketClaimReconciler.{report}

-- The claim told the error before and no call was made, or the last call wrote a status that
-- tells it. The outcome fits the answer.
abbrev pub IsTold : String → Error → BucketClaim → List Event → Outcome → Type 0
IsTold text e c ((Call.update_bucket_claim_status d, done d') ∷ g) o =
    Shows text d.status.ready_to_use d.status.error
    × (o ≡ (if is_non_retryable e then terminal e else retry e))
IsTold text e c ((Call.update_bucket_claim_status d, failed k t) ∷ g) o =
    Shows text d.status.ready_to_use d.status.error × (o ≡ retry e)
IsTold text e c g o =
    (g ≡ [])
    × Shows text c.status.ready_to_use c.status.error
    × (o ≡ (if is_non_retryable e then terminal e else retry e))

-- After an error of `reconcile` with a message, whatever the clock and the API server answer, the claim
-- told the message already and no call is made, or the last call writes a status that tells it; the
-- request is dropped exactly if no write failed and the error is marked as not retryable, and is
-- retried else.
pub report-IsTold :
    (render : Error → String) (e : Error) (c : BucketClaim)
    → render e ≢ ""
    → Safe AnyCall (IsTold (render e) e c) [] (report render (err e, c))
unfolding report new_timestamped_error
report-IsTold render e c n = ground arith
