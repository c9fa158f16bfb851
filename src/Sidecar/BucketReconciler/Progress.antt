-- ===== src/Sidecar/BucketReconciler/Progress.antt =====
-- A new Bucket becomes ready where the API server and the driver cooperate.
use cosi.Base.{String, true, none, some, List, ◌≡◌}
use cosi.Base.Dict.{Dict}
use cosi.Rpc.{BucketInfo}
use cosi.Api.Buckets.{Bucket, BucketSpec, BucketStatus}
use cosi.Effects.{Call, done}
use cosi.Effects.Progress.{Assumption}
use cosi.Sidecar.BucketSteps.{ProvisionedBucketDetails}

-- Updates succeed and store what they were given, and the driver answers with this ID and this info.
abbrev pub Cooperates : String → BucketInfo → Assumption
Cooperates id info (Call.update_bucket b) r = r ≡ done b
Cooperates id info (Call.update_bucket_status b) r = r ≡ done b
Cooperates id info (Call.driver_generate_bucket_id q) r = r ≡ done id
Cooperates id info (Call.driver_create_bucket q) r = r ≡ done (some info)
Cooperates id info _ r = Unit

-- The final status.
abbrev pub IsReady : String → List String → Dict String → Unit {0} → Bucket → Type 0
IsReady id protos vars u b =
    (b.status.ready_to_use ≡ some true)
    × (b.status.bucket_id ≡ id)
    × (b.status.protocols ≡ protos)
    × (b.status.bucket_info ≡ vars)
    × (b.status.error ≡ none)

-- The Bucket in memory has the given spec and status.
abbrev Kept : BucketSpec → BucketStatus → {A : Type 0} → A → Bucket → Type 0
Kept spec status a b = (b.spec ≡ spec) × (b.status ≡ status)

-- The ID was found, for a Bucket with the given spec.
abbrev Named : String → BucketSpec → String → Bucket → Type 0
Named id spec i b = (i ≡ id) × (b.spec ≡ spec) × (b.status.bucket_id ≡ "")

abbrev Recorded : BucketSpec → {A : Type 0} → A → Bucket → Type 0
Recorded spec a b = b.spec ≡ spec

-- The given details, for a Bucket with the given spec.
abbrev Detailed :
    List String → Dict String → BucketSpec → ProvisionedBucketDetails → Bucket → Type 0
Detailed protos vars spec d b =
    (d.supported_protos ≡ protos) × (d.all_proto_bucket_info ≡ vars) × (b.spec ≡ spec)
