-- ===== src/Predicates.antt =====
-- internal/predicate/predicate.go, `driverNameMatchesPredicate` of sidecar/pkg/reconciler/driver.go and
-- the event filters of the reconcilers' `SetupWithManager`. An object is one of the three kinds that
-- are watched; `predicate.Or` and `predicate.And` of the controller runtime are the Boolean operations
-- on each kind of event.
pub mod Laws
use mathlib.Core.Logic.{ite}
use native.Mathlib.Decide.{ℕ_discrete}
use cosi.Base.{String, ℕ, Bool, true, false, not, ◌&&◌, ◌||◌, ◌==◌}
use cosi.Base.Dict.{has}
use cosi.Base.Lists.{contains}
use cosi.Api.Meta.{ObjectMeta, is_zero, deref_or_false}
use cosi.Api.Names.{protection_finalizer, bucket_claim_being_deleted}
use cosi.Api.Buckets.{Bucket}
use cosi.Api.Claims.{BucketClaim}
use cosi.Api.Accesses.{BucketAccess}
use cosi.Handoff.{managed_by_sidecar}

pub data Object : Type 0 where
  bucket : Bucket → Object
  bucket_claim : BucketClaim → Object
  bucket_access : BucketAccess → Object

abbrev pub meta : Object → ObjectMeta
meta (bucket b) = b.metadata
meta (bucket_claim c) = c.metadata
meta (bucket_access a) = a.metadata

-- An event of an object; an update has the object before and after.
pub data ObjectEvent : Type 0 where
  create delete generic : Object → ObjectEvent
  update : Object → Object → ObjectEvent

abbrev pub Predicate : Type 0
Predicate = ObjectEvent → Bool

-- `predicate.Or` and `predicate.And`
infixr 30 ◌or◌
abbrev pub ◌or◌ : Predicate → Predicate → Predicate
◌or◌ p q e = p e || q e

infixr 35 ◌and◌
abbrev pub ◌and◌ : Predicate → Predicate → Predicate
◌and◌ p q e = p e && q e

-- `NewPredicateFuncs`: one test of the object, which is the new one in an update.
abbrev of_object : (Object → Bool) → Predicate
of_object f (create o) = f o
of_object f (delete o) = f o
of_object f (generic o) = f o
of_object f (update old new) = f new

-- `allFalseFuncs` with a test of updates.
abbrev on_update : (Object → Object → Bool) → Predicate
on_update f (create o) = false
on_update f (delete o) = false
on_update f (generic o) = false
on_update f (update old new) = f old new

unfoldable any_create : Predicate
any_create (create o) = true
any_create (delete o) = false
any_create (generic o) = false
any_create (update old new) = false

unfoldable any_delete : Predicate
any_delete (create o) = false
any_delete (delete o) = true
any_delete (generic o) = false
any_delete (update old new) = false

unfoldable any_generic : Predicate
any_generic (create o) = false
any_generic (delete o) = false
any_generic (generic o) = true
any_generic (update old new) = false

unfoldable generation_changed_in_update_only : Predicate
generation_changed_in_update_only =
    on_update λ old new. ite (ℕ_discrete (meta new).generation (meta old).generation) false true

unfoldable deletion_timestamp_added : Predicate
deletion_timestamp_added =
    on_update λ old new.
      is_zero (meta old).deletion_timestamp && not (is_zero (meta new).deletion_timestamp)

unfoldable being_deleted_annotation_added : Predicate
being_deleted_annotation_added = on_update λ old new.
    not (has bucket_claim_being_deleted (meta old).annotations)
    && has bucket_claim_being_deleted (meta new).annotations

-- Of an object that is being deleted a missing finalizer does not matter.
unfoldable protection_finalizer_removed : Predicate
protection_finalizer_removed = on_update λ old new.
    is_zero (meta new).deletion_timestamp
    && (contains (meta old).finalizers protection_finalizer
        && not (contains (meta new).finalizers protection_finalizer))

-- `a != b` on Booleans
abbrev pub differ : Bool → Bool → Bool
differ true b = not b
differ false b = b

-- `handoffOccurred`
unfoldable handoff_occurred : BucketAccess → BucketAccess → Bool
handoff_occurred old new = differ (managed_by_sidecar old) (managed_by_sidecar new)

-- `BucketAccessHandoffOccurred`: false where either object is no BucketAccess.
unfoldable bucket_access_handoff_occurred : Predicate
unfolding handoff_occurred
bucket_access_handoff_occurred (update (bucket_access old) (bucket_access new)) =
    handoff_occurred old new
bucket_access_handoff_occurred _ = false

unfoldable bucket_readiness_status_changed : Predicate
bucket_readiness_status_changed (update (bucket old) (bucket new)) =
    differ (deref_or_false old.status.ready_to_use) (deref_or_false new.status.ready_to_use)
bucket_readiness_status_changed _ = false

abbrev is_sidecar_managed : Object → Bool
is_sidecar_managed (bucket_access a) = managed_by_sidecar a
is_sidecar_managed (bucket b) = false
is_sidecar_managed (bucket_claim c) = false

abbrev is_controller_managed : Object → Bool
is_controller_managed (bucket_access a) = not (managed_by_sidecar a)
is_controller_managed (bucket b) = false
is_controller_managed (bucket_claim c) = false

unfoldable bucket_access_managed_by_sidecar : Predicate
bucket_access_managed_by_sidecar = of_object is_sidecar_managed

unfoldable bucket_access_managed_by_controller : Predicate
bucket_access_managed_by_controller = of_object is_controller_managed

abbrev names_driver : String → Object → Bool
names_driver driver_name (bucket b) = b.spec.driver_name == driver_name
names_driver driver_name (bucket_access a) = a.status.driver_name == driver_name
names_driver driver_name (bucket_claim c) = false

unfoldable driver_name_matches : String → Predicate
driver_name_matches driver_name = of_object (names_driver driver_name)

-- The filter of the controller's BucketAccessReconciler.
unfoldable pub controller_access_filter : Predicate
unfolding any_create any_delete any_generic bucket_access_handoff_occurred deletion_timestamp_added
    protection_finalizer_removed bucket_access_managed_by_controller
controller_access_filter =
    bucket_access_managed_by_controller
    and (any_create or any_delete or any_generic or bucket_access_handoff_occurred
        or deletion_timestamp_added or protection_finalizer_removed)

-- The filter of the sidecar's BucketAccessReconciler.
unfoldable pub sidecar_access_filter : String → Predicate
unfolding any_create any_delete any_generic bucket_access_handoff_occurred deletion_timestamp_added
    protection_finalizer_removed driver_name_matches
sidecar_access_filter driver_name =
    driver_name_matches driver_name
    and (any_create or any_delete or any_generic or bucket_access_handoff_occurred
        or deletion_timestamp_added or protection_finalizer_removed)

-- The filter of the sidecar's BucketReconciler.
unfoldable pub sidecar_bucket_filter : String → Predicate
unfolding any_create any_delete any_generic generation_changed_in_update_only
    deletion_timestamp_added being_deleted_annotation_added protection_finalizer_removed
    driver_name_matches
sidecar_bucket_filter driver_name =
    driver_name_matches driver_name
    and (any_create or any_delete or any_generic or generation_changed_in_update_only
        or deletion_timestamp_added or being_deleted_annotation_added
        or protection_finalizer_removed)

-- The filters of the controller's BucketClaimReconciler, on claims and on Buckets.
unfoldable claim_filter : Predicate
unfolding any_create any_delete any_generic generation_changed_in_update_only
    deletion_timestamp_added protection_finalizer_removed
claim_filter =
    any_create or any_delete or any_generic or generation_changed_in_update_only
    or deletion_timestamp_added or protection_finalizer_removed

unfoldable claim_bucket_filter : Predicate
unfolding any_create any_delete bucket_readiness_status_changed
claim_bucket_filter = any_create or bucket_readiness_status_changed or any_delete
