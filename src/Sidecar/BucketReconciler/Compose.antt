-- ===== src/Sidecar/BucketReconciler/Compose.antt =====
-- A policy that every step of `provision` keeps is kept by `provision`, and one that `reconcile` and
-- `report` keep is kept by `Reconcile`.
use cosi.Base.{String, Bool, List, ◌∷◌, [], arith, ◌!=◌, if◌then◌else◌}
use cosi.Errors.{Error, not_found, already_exists, other_reason, Result, ok, err}
use cosi.Rpc.{ProtocolType}
use cosi.Api.Meta.{NamespacedName}
use cosi.Api.Buckets.{Bucket}
use cosi.Driver.{DriverInfo}
use cosi.Effects.{Call, done, failed}
use cosi.Effects.Run.{Event}
use cosi.Effects.Safety.{Policy, Safe, Safe-bind, Safe-weaken, Post, Safe-seq}
use cosi.Sidecar.BucketSteps.{ProvisionedBucketDetails, dynamic_provision, static_provision}
use cosi.Sidecar.BucketReconciler.{
  protect, determine_bucket_id, ensure_recorded, complete, provision, provision_with, reconcile,
  fetched, report, reconcile_request,
}

abbrev pub Anything : {A : Type 0} → List Event → A → Bucket → Type 0
Anything g a b = Unit

module _ (P : Policy) where
  pub record StepsKeep : Type 0 where
    pub protects : (h : List Event) (b : Bucket) → Safe P (Post Anything) h (protect b)
    pub determines :
        (required : List ProtocolType) (h : List Event) (b : Bucket)
        → Safe P (Post Anything) h (determine_bucket_id required b)
    pub records :
        (id : String) (h : List Event) (b : Bucket)
        → Safe P (Post Anything) h (ensure_recorded id b)
    pub works :
        (static : Bool) (id : String) (required : List ProtocolType) (h : List Event) (b : Bucket)
        → Safe P
            (Post Anything)
            h
            ((if static then static_provision id required else dynamic_provision id required) b)
    pub completes :
        (id : String) (details : ProvisionedBucketDetails) (h : List Event) (b : Bucket)
        → Safe P (Post Anything) h (complete id details b)

  pub provision-Safe :
      StepsKeep
      → (static : Bool) (required : List ProtocolType) (h : List Event) (b : Bucket)
      → Safe P (Post Anything) h (provision static required b)
  unfolding provision
  provision-Safe keep static required h b =
      Safe-seq P Anything Anything protect _ h b (keep.protects h b) λ g u b' _.
        Safe-seq P Anything Anything (determine_bucket_id required) _ g b'
          (keep.determines required g b')
          λ g id b' _.
            Safe-seq P Anything Anything (ensure_recorded id) _ g b' (keep.records id g b')
              λ g u b' _.
                Safe-seq P Anything Anything
                  (if static then static_provision id required else dynamic_provision id required) _
                  g b' (keep.works static id required g b')
                  λ g details b' u. keep.completes id details g b'

  pub provision_with-Safe :
      (driver : DriverInfo) (parsed : Result (List ProtocolType)) (h : List Event) (b : Bucket)
      → ((required : List ProtocolType)
          → Safe P (Post Anything) h (provision (b.spec.existing_bucket_id != "") required b))
      → Safe P (Post Anything) h (provision_with driver parsed b)
  unfolding provision_with
  provision_with-Safe driver (err e) h b keep = tt
  provision_with-Safe driver (ok required) h b keep = ground (arith, keep required)

  pub reconcile_request-Safe :
      (driver : DriverInfo) (render : Error → String) (req : NamespacedName)
      → P [] (Call.get_bucket req)
      → ((b : Bucket)
          → Safe P (Post Anything) ((Call.get_bucket req, done b) ∷ []) (reconcile driver b))
      → ((h : List Event) (p : Result (Unit {0}) × Bucket)
          → Safe P (λ g o. Unit) h (report driver render p))
      → Safe P (λ g o. Unit) [] (reconcile_request driver render req)
  unfolding reconcile_request fetched
  reconcile_request-Safe driver render req first keep reports = (
    first,
    elim [
      | failed not_found text ↦ tt
      | failed already_exists text ↦ tt
      | failed other_reason text ↦ tt
      | done b ↦
          Safe-bind P (λ g o. Unit) _ (reconcile driver b) (report driver render)
            (Safe-weaken P _ (reconcile driver b) (λ g p _. reports g p) (keep b))
    ],
  )
