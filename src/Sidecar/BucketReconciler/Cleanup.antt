-- ===== src/Sidecar/BucketReconciler/Cleanup.antt =====
-- A doomed Bucket is let go where the API server and the driver cooperate.
use cosi.Base.{false, some, ◌≡◌}
use cosi.Base.Lists.{contains}
use cosi.Api.Names.{protection_finalizer}
use cosi.Api.Buckets.{Bucket}
use cosi.Effects.{Call, done}
use cosi.Effects.Progress.{Assumption}

-- Updates succeed and store what they were given, and the driver deletes the bucket.
abbrev pub Deletes : Assumption
Deletes (Call.update_bucket b) r = r ≡ done b
Deletes (Call.update_bucket_status b) r = r ≡ done b
Deletes (Call.driver_delete_bucket q) r = r ≡ done tt
Deletes _ r = Unit

-- The Bucket is not ready, and has no protection finalizer any more.
abbrev pub IsReleased : Unit {0} → Bucket → Type 0
IsReleased u b =
    (b.status.ready_to_use ≡ some false)
    × (contains b.metadata.finalizers protection_finalizer ≡ false)
