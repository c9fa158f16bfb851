-- ===== src/Controller/BucketAccessReconciler/Compose.antt =====
-- A policy that `reconcile` and `report` keep is kept by `Reconcile`.
use cosi.Base.{String, false, List, [], ◌∷◌, ◌≡◌}
use cosi.Errors.{Error, Result, not_found, already_exists, other_reason}
use cosi.Api.Meta.{NamespacedName}
use cosi.Api.Accesses.{BucketAccess}
use cosi.Handoff.{managed_by_sidecar}
use cosi.Effects.{Call, done, failed, return, bind, finished}
use cosi.Effects.Run.{Event}
use cosi.Effects.Safety.{Policy, Post, Safe, Safe-bind, Safe-weaken, Safe-if}
use cosi.Controller.BucketAccessReconciler.{reconcile, report, fetched, reconcile_request}

abbrev pub Anything : {A : Type 0} → List Event → A → BucketAccess → Type 0
Anything g u a = Unit

-- The server answered with this object.
abbrev pub IsShown : BucketAccess → Event → Type 0
IsShown a (Call.get_bucket_access n, done b) = b ≡ a
IsShown a (Call.update_bucket_access w, done b) = b ≡ a
IsShown a (Call.update_bucket_access_status w, done b) = b ≡ a
IsShown a _ = ⊥

module _ (P : Policy) (render : Error → String) where
  pub reconcile_request-Safe :
      (req : NamespacedName)
      → P [] (Call.get_bucket_access req)
      → ((a : BucketAccess)
          → managed_by_sidecar a ≡ false
          → Safe P (Post Anything) ((Call.get_bucket_access req, done a) ∷ []) (reconcile a))
      → ((h : List Event) (p : Result (Unit {0}) × BucketAccess)
          → Safe P (λ g o. Unit) h (report render p))
      → Safe P (λ g o. Unit) [] (reconcile_request render req)
  unfolding reconcile_request fetched
  reconcile_request-Safe req first keep reports = (
    first,
    elim [
      | failed not_found text ↦ tt
      | failed already_exists text ↦ tt
      | failed other_reason text ↦ tt
      | done a ↦
          let h : List Event = (Call.get_bucket_access req, done a) ∷ [] in
          Safe-if P (λ g o. Unit) h (managed_by_sidecar a) (return finished)
            (bind (reconcile a) (report render)) (λ m. tt)
            λ m.
              Safe-bind P (λ g o. Unit) h (reconcile a) (report render)
                (Safe-weaken P h (reconcile a) (λ g p q. reports g p) (keep a m))
    ],
  )
