-- ===== src/Sidecar/BucketReconciler/Reporting.antt =====
-- What `Reconcile` of a Bucket makes of the error of `reconcile`.
use cosi.Base.{String, List, ◌∷◌, if◌then◌else◌, ◌≡◌, ◌≢◌, arith}
use cosi.Errors.{Error, err, is_non_retryable}
use cosi.Api.Buckets.{Bucket}
use cosi.Driver.{DriverInfo}
use cosi.Api.Meta.{new_timestamped_error}
use cosi.Effects.{Call, done, failed, Outcome, retry, terminal}
use cosi.Effects.Run.{Event}
use cosi.Effects.Safety.{Safe}
use cosi.Effects.Reporting.{Shows, AnyCall}
use cosi.Sidecar.BucketReconciler.{report}

-- The last call wrote a status that tells the error, and the outcome fits the answer.
abbrev pub IsReported : String → Error → List Event → Outcome → Type 0
IsReported text e ((Call.update_bucket_status b, done b') ∷ g) o =
    Shows text b.status.ready_to_use b.status.error
    × (o ≡ (if is_non_retryable e then terminal e else retry e))
IsReported text e ((Call.update_bucket_status b, failed k t) ∷ g) o =
    Shows text b.status.ready_to_use b.status.error × (o ≡ retry e)
IsReported text e _ o = ⊥

-- After an error of `reconcile` with a message, whatever the clock and the API server answer, the last
-- call writes a status of the Bucket that tells the message and has a readiness; the request is dropped
-- exactly if that write succeeds and the error is marked as not retryable, and is retried else.
pub report-IsReported :
    (driver : DriverInfo) (render : Error → String) (e : Error) (h : List Event) (b : Bucket)
    → render e ≢ ""
    → Safe AnyCall (IsReported (render e) e) h (report driver render (err e, b))
unfolding report new_timestamped_error
report-IsReported driver render e h b n = ground arith
