-- ===== src/Controller/BucketClaimReconciler/Compose.antt =====
-- A policy that the parts of `reconcile` and `report` keep is kept by `Reconcile` of a BucketClaim.
use cosi.Base.{String, List, ◌∷◌, []}
use cosi.Errors.{Error, not_found, already_exists, other_reason, Result}
use cosi.Api.Meta.{NamespacedName}
use cosi.Api.Claims.{BucketClaim}
use cosi.Effects.{Call, done, failed}
use cosi.Effects.Run.{Event}
use cosi.Effects.Safety.{Policy, Safe, Safe-bind, Safe-weaken, Post}
use cosi.Controller.BucketClaimReconciler.{reconcile, fetched, report, reconcile_request}

abbrev pub Anything : {A : Type 0} → List Event → A → BucketClaim → Type 0
Anything g a c = Unit

module _ (P : Policy) (render : Error → String) where
  pub reconcile_request-Safe :
      (req : NamespacedName)
      → P [] (Call.get_bucket_claim req)
      → ((c : BucketClaim)
          → Safe P (Post Anything) ((Call.get_bucket_claim req, done c) ∷ []) (reconcile c))
      → ((h : List Event) (p : Result (Unit {0}) × BucketClaim)
          → Safe P (λ g o. Unit) h (report render p))
      → Safe P (λ g o. Unit) [] (reconcile_request render req)
  unfolding reconcile_request fetched
  reconcile_request-Safe req first keep reports = (
    first,
    elim [
      | failed not_found text ↦ tt
      | failed already_exists text ↦ tt
      | failed other_reason text ↦ tt
      | done c ↦
          Safe-bind P (λ g o. Unit) _ (reconcile c) (report render)
            (Safe-weaken P _ (reconcile c) (λ g p _. reports g p) (keep c))
    ],
  )
