-- ===== src/Sidecar/BucketReconciler/Deletion.antt =====
-- A backend bucket is deleted only for a Bucket that is to go, and before its protection ends.
use cosi.Base.{String, true, false, none, some, List, [], ◌∷◌, ◌≡◌, ◌≢◌, ◌⊎◌, arith}
use cosi.Base.Dict.{has}
use cosi.Api.Names.{bucket_claim_being_deleted}
use cosi.Base.Lists.{contains, contains-append_self}
use cosi.Errors.{Error, Result, ok, err}
use cosi.Api.Meta.{NamespacedName}
use cosi.Api.Names.{protection_finalizer, delete}
use cosi.Api.Buckets.{Bucket}
use cosi.Driver.{DriverInfo}
use cosi.Effects.{Call, done}
use cosi.Effects.Run.{Event}
use cosi.Effects.Safety.{Policy, Safe, Post}
use cosi.Sidecar.BucketSteps.{
  object_protocol_list_from_api_list, dynamic_provision, static_provision,
}
use cosi.Sidecar.BucketReconciler.Compose.{
  Anything, StepsKeep, provision-Safe, provision_with-Safe, reconcile_request-Safe,
}
use cosi.Sidecar.BucketReconciler.{
  protect, determine_bucket_id, ensure_recorded, complete, may_delete, reconcile_delete, clean_up,
  withdraw, delete_backend, unprotect, provision_if_supported, reconcile, report, reconcile_request,
}

module _ (driver : DriverInfo) where
  -- The Bucket is one of this driver, it is being deleted, its policy lets the backend bucket be
  -- deleted, and its claim is being deleted or it is bound to none.
  abbrev pub IsDoomed : Bucket → Type 0
  IsDoomed b =
      (b.spec.driver_name ≡ driver.name)
      × (b.metadata.deletion_timestamp ≢ none)
      × (b.spec.deletion_policy ≡ delete)
      × ((has bucket_claim_being_deleted b.metadata.annotations ≡ true)
          ⊎ (b.spec.bucket_claim_ref.uid ≡ ""))

  -- The request fetched a doomed Bucket and then took back its readiness; the server answered `b'`.
  abbrev pub Withdrawn : (Bucket → Type 0) → List Event → Type 0
  Withdrawn P ((Call.update_bucket_status w, done b') ∷ (Call.get_bucket n, done b) ∷ []) =
      IsDoomed b × (w.status.ready_to_use ≡ some false) × P b'
  Withdrawn P _ = ⊥

  abbrev pub BackendGone : List Event → Type 0
  BackendGone ((Call.driver_delete_bucket r, done u) ∷ h) =
      Withdrawn (λ b'. r.bucket_id ≡ b'.status.bucket_id) h
  BackendGone h = Withdrawn (λ b'. b'.status.bucket_id ≡ "") h

  abbrev pub DeletesDoomed : Policy
  DeletesDoomed h (Call.driver_delete_bucket r) =
      Withdrawn (λ b'. r.bucket_id ≡ b'.status.bucket_id) h
  DeletesDoomed h (Call.update_bucket w) =
      (contains w.metadata.finalizers protection_finalizer ≡ true) ⊎ BackendGone h
  DeletesDoomed h _ = Unit

  steps-DeletesDoomed : StepsKeep DeletesDoomed
  unfolding protect determine_bucket_id ensure_recorded static_provision dynamic_provision complete
  steps-DeletesDoomed = record {
    protects =
        λ h b. ground (arith, contains-append_self b.metadata.finalizers protection_finalizer);
    determines = λ required h b. ground arith;
    records = λ id h b. ground arith;
    works = λ static id required h b. ground arith;
    completes = λ id details h b. ground arith;
  }

  reconcile_delete-Safe :
      (req : NamespacedName) (b : Bucket)
      → b.spec.driver_name ≡ driver.name
      → b.metadata.deletion_timestamp ≢ none
      → Safe DeletesDoomed (Post Anything) ((Call.get_bucket req, done b) ∷ []) (reconcile_delete b)
  unfolding reconcile_delete clean_up withdraw delete_backend unprotect may_delete
  reconcile_delete-Safe req b own deleting = ground arith

  reconcile-Safe :
      (req : NamespacedName) (b : Bucket)
      → Safe DeletesDoomed (Post Anything) ((Call.get_bucket req, done b) ∷ []) (reconcile driver b)
  unfolding reconcile withdraw provision_if_supported
  reconcile-Safe req b = ground (
    arith,
    reconcile_delete-Safe req b,
    provision_with-Safe DeletesDoomed driver (object_protocol_list_from_api_list b.spec.protocols)
        ((Call.get_bucket req, done b) ∷ []) b
        (λ required. provision-Safe DeletesDoomed steps-DeletesDoomed _ required _ b),
  )

  report-Safe :
      (render : Error → String) (h : List Event) (p : Result (Unit {0}) × Bucket)
      → Safe DeletesDoomed (λ g o. Unit) h (report driver render p)
  unfolding report
  report-Safe render h (err e, b) = ground arith
  report-Safe render h (ok a, b) = ground arith

  -- In every run of `Reconcile`, whatever the API server and the driver answer: the driver is told to
  -- delete a backend bucket only after a doomed Bucket was fetched (one of this driver that is being
  -- deleted, has the policy Delete, and either is marked as one whose claim is being deleted or has no
  -- claim UID) and its readiness was taken back, and under the ID that the server then had for it; and a
  -- Bucket is written without the protection finalizer only after such a deletion succeeded, or where
  -- the server had no ID for it.
  pub reconcile_request-DeletesDoomed :
      (render : Error → String) (req : NamespacedName)
      → Safe DeletesDoomed (λ g o. Unit) [] (reconcile_request driver render req)
  reconcile_request-DeletesDoomed render req =
      reconcile_request-Safe DeletesDoomed driver render req tt (reconcile-Safe req)
        (report-Safe render)
