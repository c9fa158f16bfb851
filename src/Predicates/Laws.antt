-- ===== src/Predicates/Laws.antt =====
-- No handoff of a BucketAccess between the controller and the sidecar goes unnoticed.
use cosi.Base.{String, true, false, none, ◌≡◌, ◌≢◌, ◌⊎◌, ◌↔◌, arith}
use cosi.Base.Dict.{has}
use cosi.Api.Names.{bucket_claim_being_deleted}
use cosi.Api.Buckets.{Bucket}
use cosi.Api.Accesses.{BucketAccess}
use cosi.Handoff.{managed_by_sidecar}
use cosi.Predicates.{
  bucket, bucket_access, ObjectEvent, create, delete, generic, update, controller_access_filter,
  sidecar_access_filter, sidecar_bucket_filter,
}

-- An update that hands an access over reaches the component that takes it: the sidecar of the driver
-- that the new status names, or the controller.
pub handoff-IsNoticed :
    (old new : BucketAccess)
    → managed_by_sidecar old ≢ managed_by_sidecar new
    → ((managed_by_sidecar new ≡ true)
        × (sidecar_access_filter new.status.driver_name
              (update (bucket_access old) (bucket_access new))
            ≡ true))
      ⊎ ((managed_by_sidecar new ≡ false)
          × (controller_access_filter (update (bucket_access old) (bucket_access new)) ≡ true))
unfolding sidecar_access_filter controller_access_filter
handoff-IsNoticed old new h = ground arith

-- On event `e` of access `a`, each component is asked to reconcile by its own test alone.
abbrev pub Split : String → BucketAccess → ObjectEvent → Type 0
Split driver a e =
    ((controller_access_filter e ≡ true) ↔ (managed_by_sidecar a ≡ false))
    × ((sidecar_access_filter driver e ≡ true) ↔ (a.status.driver_name ≡ driver))

-- At the creation, the deletion and a generic event of an access, the controller is asked to reconcile it
-- exactly when the controller manages it, and the sidecar of a driver exactly when the access names
-- that driver.
pub access_filters-Split :
    (driver : String) (a : BucketAccess)
    → Split driver a (create (bucket_access a))
      × Split driver a (delete (bucket_access a))
      × Split driver a (generic (bucket_access a))
unfolding controller_access_filter sidecar_access_filter
access_filters-Split driver a = ground arith

-- Once a Bucket of this driver gets the annotation that its claim is being deleted, or a deletion
-- timestamp, the sidecar is asked to reconcile it.
pub deletion-IsNoticed :
    (old new : Bucket)
    → ((has bucket_claim_being_deleted old.metadata.annotations ≡ false)
        × (has bucket_claim_being_deleted new.metadata.annotations ≡ true))
      ⊎ ((old.metadata.deletion_timestamp ≡ none) × (new.metadata.deletion_timestamp ≢ none))
    → sidecar_bucket_filter new.spec.driver_name (update (bucket old) (bucket new)) ≡ true
unfolding sidecar_bucket_filter
deletion-IsNoticed old new h = ground arith
