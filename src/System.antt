-- ===== src/System.antt =====
-- How the controller and the sidecar share a BucketAccess: internal/bucketaccess/bucketaccess.go, and
-- the two reconcilers that ask it who manages an access.
use cosi.Base.{String, true, false, none, List, [], ◌∷◌, ◌≡◌, ◌≢◌, arith}
use cosi.Base.Dict.{Dict, has, has-insert}
use cosi.Base.{Option}
use cosi.Errors.{Error, ok}
use cosi.Api.Names.{controller_management_override, sidecar_cleanup_finished}
use cosi.Api.Buckets.{Bucket}
use cosi.Api.Accesses.{BucketAccess, BucketAccessClass, BucketClaimAccess, AccessedBucket}
use cosi.Api.Secrets.{Owning}
use cosi.Handoff.{managed_by_sidecar, sidecar_requirements_present}
use cosi.Handoff.Laws.{managed_by_sidecar_iff, sidecar_requirements_present_iff}
use cosi.Driver.{DriverInfo}
use cosi.Effects.{done, return, bind, Method, finished}
use cosi.Controller.AccessRules.{compile_accessed_buckets}
use cosi.Controller.AccessRules.Laws.{AreCompiled}
use cosi.Controller.AccessRules.Compiled.{compile_accessed_buckets-IsSound}
use cosi.Sidecar.BucketAccessReconciler as Sidecar
use cosi.Controller.BucketAccessReconciler as Controller

-- The access is not being deleted, and nothing about its management was written yet.
abbrev pub IsNew : BucketAccess → Type 0
IsNew a =
    (a.metadata.deletion_timestamp ≡ none)
    × (has controller_management_override a.metadata.annotations ≡ false)
    × (has sidecar_cleanup_finished a.metadata.annotations ≡ false)
    × (a.status.accessed_buckets ≡ [])
    × (a.status.driver_name ≡ "")
    × (a.status.authentication_type ≡ "")
    × (a.spec.bucket_claims ≢ [])

-- The class is one of this driver, and is filled in.
abbrev pub IsOf : DriverInfo → BucketAccessClass → Type 0
IsOf driver class =
    (class.spec.driver_name ≡ driver.name)
    × (driver.name ≢ "")
    × (class.spec.authentication_type ≢ "")

-- What decides about the management is as it was handed over; anything else may have been written.
abbrev pub IsStillAs : BucketAccess → BucketAccess → Type 0
IsStillAs b a =
    (b.metadata.annotations ≡ a.metadata.annotations)
    × (b.status.accessed_buckets ≡ a.status.accessed_buckets)
    × (b.status.driver_name ≡ a.status.driver_name)
    × (b.status.authentication_type ≡ a.status.authentication_type)

compiled-is_filled :
    (buckets : Dict (Option Bucket)) (refs : List BucketClaimAccess) (out : List AccessedBucket)
    → refs ≢ []
    → AreCompiled buckets refs out
    → out ≢ []
compiled-is_filled buckets [] out n c = ground arith
compiled-is_filled buckets (ref ∷ refs) [] n c = ground arith
compiled-is_filled buckets (ref ∷ refs) (a ∷ as') n c = ground arith

module _ (owning : Owning) (driver : DriverInfo) (render : Error → String) where
  -- `Reconcile` of the sidecar, which read this access, does this; the controller's makes no call.
  abbrev pub SidecarDoes : Method BucketAccess (Unit {0}) → BucketAccess → Type 0
  SidecarDoes m a =
      (Controller.fetched render (done a) ≡ return finished)
      × (Sidecar.fetched owning driver render (done a)
          ≡ bind (m a) (Sidecar.report owning driver render))

  -- `Reconcile` of the controller, which read this access, does this; the sidecar's makes no call.
  abbrev pub ControllerDoes : Method BucketAccess (Unit {0}) → BucketAccess → Type 0
  ControllerDoes m a =
      (Sidecar.fetched owning driver render (done a) ≡ return finished)
      × (Controller.fetched render (done a) ≡ bind (m a) (Controller.report render))

  initializes : (a : BucketAccess) → IsNew a → ControllerDoes Controller.initialize a
  unfolding Controller.fetched Sidecar.fetched Controller.reconcile
  initializes a new =
      ground (arith, managed_by_sidecar_iff a, sidecar_requirements_present_iff (a.status))

  grants :
      (a : BucketAccess)
      → a.metadata.deletion_timestamp ≡ none
      → managed_by_sidecar a ≡ true
      → a.status.driver_name ≡ driver.name
      → sidecar_requirements_present a.status ≡ ok true
      → SidecarDoes (Sidecar.grant owning driver) a
  unfolding Controller.fetched Sidecar.fetched Sidecar.reconcile
  grants a t m d r = ground arith

  revokes :
      (a : BucketAccess)
      → a.metadata.deletion_timestamp ≢ none
      → managed_by_sidecar a ≡ true
      → a.status.driver_name ≡ driver.name
      → SidecarDoes (Sidecar.reconcile_delete owning driver) a
  unfolding Controller.fetched Sidecar.fetched Sidecar.reconcile
  revokes a t m d = ground arith

  lets_go :
      (a : BucketAccess)
      → a.metadata.deletion_timestamp ≢ none
      → managed_by_sidecar a ≡ false
      → ControllerDoes Controller.reconcile_delete a
  unfolding Controller.fetched Sidecar.fetched Controller.reconcile
  lets_go a t m = ground arith

-- A BucketAccess passes from the controller to the sidecar of its driver and back. While it is new,
-- the controller's `Reconcile` initializes it; once it was handed over, with the Buckets compiled for
-- at least one claim and from a class of the driver that is filled in, the sidecar's grants it and,
-- when it is being deleted, revokes it; and once the sidecar handed it back, the controller's lets it
-- go. At each of these stages the other one's `Reconcile` ends without a call after it read the
-- access. Between the stages anything may be written to it but its annotations, accessed Buckets,
-- driver's name and authentication type.
pub fetched-TakesTurns :
    (owning : Owning) (driver : DriverInfo) (render : Error → String) (class : BucketAccessClass)
    (buckets : Dict (Option Bucket)) (accessed : List AccessedBucket)
    (new granted deleting : BucketAccess)
    → IsNew new
    → IsOf driver class
    → compile_accessed_buckets new.spec.bucket_claims buckets ≡ ok accessed
    → IsStillAs granted (Controller.handed class accessed new)
    → granted.metadata.deletion_timestamp ≡ none
    → IsStillAs deleting (Controller.handed class accessed new)
    → deleting.metadata.deletion_timestamp ≢ none
    → ControllerDoes owning driver render Controller.initialize new
      × SidecarDoes owning driver render (Sidecar.grant owning driver) granted
      × SidecarDoes owning driver render (Sidecar.reconcile_delete owning driver) deleting
      × ControllerDoes owning driver render Controller.reconcile_delete
          (Sidecar.handed_back deleting)
fetched-TakesTurns owning driver render class buckets accessed new granted deleting fresh of_class
      compiled still kept still' left =
    let filled : accessed ≢ [] =
      compiled-is_filled buckets new.spec.bucket_claims accessed (fresh.6)
        (compile_accessed_buckets-IsSound new.spec.bucket_claims buckets accessed compiled) in
    let requirements : sidecar_requirements_present granted.status ≡ ok true =
      ground (arith, sidecar_requirements_present_iff (granted.status)) in
    let managed : managed_by_sidecar granted ≡ true =
      ground (arith, managed_by_sidecar_iff granted) in
    let managed' : managed_by_sidecar deleting ≡ true =
      ground (arith, managed_by_sidecar_iff deleting) in
    let handed_back : managed_by_sidecar (Sidecar.handed_back deleting) ≡ false = ground (
      arith,
      managed_by_sidecar_iff (Sidecar.handed_back deleting),
      has-insert sidecar_cleanup_finished sidecar_cleanup_finished "" deleting.metadata.annotations,
    ) in
    (
      initializes owning driver render new fresh,
      grants owning driver render granted kept managed (ground arith) requirements,
      revokes owning driver render deleting left managed' (ground arith),
      lets_go owning driver render (Sidecar.handed_back deleting) left handed_back,
    )
