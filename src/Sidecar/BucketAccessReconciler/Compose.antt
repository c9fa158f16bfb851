-- ===== src/Sidecar/BucketAccessReconciler/Compose.antt =====
-- A policy that `reconcile` and `report` keep is kept by `Reconcile`.
use cosi.Base.{String, not, true, List, [], ◌∷◌, ◌≡◌, arith}
use cosi.Errors.{Error, Result, not_found, already_exists, other_reason}
use cosi.Api.Meta.{NamespacedName}
use cosi.Api.Accesses.{BucketAccess}
use cosi.Api.Secrets.{Owning}
use cosi.Handoff.{managed_by_sidecar}
use cosi.Driver.{DriverInfo}
use cosi.Effects.{Call, done, failed, return, bind, finished}
use cosi.Effects.Run.{Event}
use cosi.Effects.Safety.{Policy, Post, Safe, Safe-bind, Safe-weaken, Safe-if}
use cosi.Sidecar.BucketAccessReconciler.{reconcile, report, fetched, reconcile_request}

abbrev pub Anything : {A : Type 0} → List Event → A → BucketAccess → Type 0
Anything g u a = Unit

-- The server answered with this object.
abbrev pub IsShown : BucketAccess → Event → Type 0
IsShown a (Call.get_bucket_access n, done b) = b ≡ a
IsShown a (Call.update_bucket_access w, done b) = b ≡ a
IsShown a (Call.update_bucket_access_status w, done b) = b ≡ a
IsShown a _ = ⊥

module _ (P : Policy) (owning : Owning) (driver : DriverInfo) (render : Error → String) where
  pub reconcile_request-Safe :
      (req : NamespacedName)
      → P [] (Call.get_bucket_access req)
      → ((a : BucketAccess)
          → managed_by_sidecar a ≡ true
          → Safe P
              (Post Anything)
              ((Call.get_bucket_access req, done a) ∷ [])
              (reconcile owning driver a))
      → ((h : List Event) (p : Result (Unit {0}) × BucketAccess)
          → Safe P (λ g o. Unit) h (report owning driver render p))
      → Safe P (λ g o. Unit) [] (reconcile_request owning driver render req)
  unfolding reconcile_request fetched
  reconcile_request-Safe req first keep reports = (
    first,
    elim [
      | failed not_found text ↦ tt
      | failed already_exists text ↦ tt
      | failed other_reason text ↦ tt
      | done a ↦
          let h : List Event = (Call.get_bucket_access req, done a) ∷ [] in
          Safe-if P (λ g o. Unit) h (not (managed_by_sidecar a)) (return finished)
            (bind (reconcile owning driver a) (report owning driver render)) (λ m. tt)
            λ m.
              Safe-bind P (λ g o. Unit) h (reconcile owning driver a) (report owning driver render)
                (Safe-weaken P h (reconcile owning driver a) (λ g p q. reports g p)
                  (keep a (ground arith)))
    ],
  )
