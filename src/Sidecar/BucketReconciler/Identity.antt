-- ===== src/Sidecar/BucketReconciler/Identity.antt =====
-- A backend bucket is provisioned under an ID that Kubernetes holds.
use cosi.Base.{if◌then◌else◌, ◌!=◌}
use cosi.Base.{String, Bool, true, false, List, [], ◌∷◌, ◌≡◌, refl, ◌≢◌, ◌⊎◌, inl, arith}
use cosi.Errors.{Error, Result, ok, err}
use cosi.Rpc.{ProtocolType}
use cosi.Api.Meta.{NamespacedName}
use cosi.Api.Buckets.{Bucket}
use cosi.Driver.{DriverInfo}
use cosi.Effects.{Call, done}
use cosi.Effects.Run.{Event}
use cosi.Effects.Safety.{Policy, Safe, Post, Safe-seq}
use cosi.Sidecar.BucketSteps.{
  object_protocol_list_from_api_list, ProvisionedBucketDetails, dynamic_provision, static_provision,
}
use cosi.Sidecar.BucketReconciler.Compose.{Anything, provision_with-Safe, reconcile_request-Safe}
use cosi.Sidecar.BucketReconciler.{
  reconcile_delete, clean_up, withdraw, delete_backend, unprotect, report, provision_if_supported,
  protect, determine_bucket_id, ensure_recorded, complete, provision, reconcile, reconcile_request,
}

-- The event shows that the API server has the ID in a Bucket's status.
abbrev Shows : String → Event → Type 0
Shows id (Call.get_bucket n, done b) = b.status.bucket_id ≡ id
Shows id (Call.update_bucket b, done b') = b'.status.bucket_id ≡ id
Shows id (Call.update_bucket_status b, done b') =
    (b.status.bucket_id ≡ id) ⊎ (b'.status.bucket_id ≡ id)
Shows id _ = ⊥

abbrev pub Held : String → List Event → Type 0
Held id [] = ⊥
Held id (e ∷ h) = Shows id e ⊎ Held id h

-- A provisioning call names an ID that is not empty and that the server has.
abbrev pub HeldBefore : Policy
HeldBefore h (Call.driver_create_bucket r) = (r.bucket_id ≢ "") × Held r.bucket_id h
HeldBefore h (Call.driver_get_bucket r) = (r.bucket_id ≢ "") × Held r.bucket_id h
HeldBefore h _ = Unit

-- The Bucket in memory has an ID that the server has, or both have none.
abbrev InStep : {A : Type 0} → List Event → A → Bucket → Type 0
InStep g a b = Held b.status.bucket_id g

protect-Safe :
    (h : List Event) (b : Bucket)
    → Held b.status.bucket_id h
    → Safe HeldBefore (Post InStep) h (protect b)
unfolding protect
protect-Safe h b k = ground arith

-- An ID that was found is the one in the status, if there is one there.
abbrev Found : List Event → String → Bucket → Type 0
Found g id b = Held b.status.bucket_id g × ((b.status.bucket_id ≡ "") ⊎ (b.status.bucket_id ≡ id))

determine_bucket_id-Safe :
    (required : List ProtocolType) (h : List Event) (b : Bucket)
    → Held b.status.bucket_id h
    → Safe HeldBefore (Post Found) h (determine_bucket_id required b)
unfolding determine_bucket_id
determine_bucket_id-Safe required h b k = ground arith

abbrev Recorded : String → List Event → Unit {0} → Bucket → Type 0
Recorded id g a b = (id ≢ "") × Held id g

ensure_recorded-Safe :
    (id : String) (h : List Event) (b : Bucket)
    → Found h id b
    → Safe HeldBefore (Post (Recorded id)) h (ensure_recorded id b)
unfolding ensure_recorded
ensure_recorded-Safe id h b k = ground arith

workflow-Safe :
    (static : Bool) (id : String) (required : List ProtocolType) (h : List Event) (b : Bucket)
    → (id ≢ "") × Held id h
    → Safe HeldBefore
        (Post Anything)
        h
        ((if static then static_provision id required else dynamic_provision id required) b)
unfolding static_provision dynamic_provision
workflow-Safe true id required h b k = ground arith
workflow-Safe false id required h b k = ground arith

complete-Safe :
    (id : String) (details : ProvisionedBucketDetails) (h : List Event) (b : Bucket)
    → Safe HeldBefore (Post Anything) h (complete id details b)
unfolding complete
complete-Safe id details h b = ground arith

provision-Safe :
    (static : Bool) (required : List ProtocolType) (h : List Event) (b : Bucket)
    → Held b.status.bucket_id h
    → Safe HeldBefore (Post Anything) h (provision static required b)
unfolding provision
provision-Safe static required h b k =
    Safe-seq HeldBefore InStep Anything protect _ h b (protect-Safe h b k) λ g u b' held.
      Safe-seq HeldBefore Found Anything (determine_bucket_id required) _ g b'
        (determine_bucket_id-Safe required g b' held)
        λ g id b' found.
          Safe-seq HeldBefore (Recorded id) Anything (ensure_recorded id) _ g b'
            (ensure_recorded-Safe id g b' found)
            λ g u b' recorded.
              Safe-seq HeldBefore Anything Anything
                (if static then static_provision id required else dynamic_provision id required) _ g
                b' (workflow-Safe static id required g b' recorded)
                λ g details b' u. complete-Safe id details g b'

reconcile_delete-Safe :
    (h : List Event) (b : Bucket) → Safe HeldBefore (Post Anything) h (reconcile_delete b)
unfolding reconcile_delete clean_up withdraw delete_backend unprotect
reconcile_delete-Safe h b = ground arith

reconcile-Safe :
    (driver : DriverInfo) (h : List Event) (b : Bucket)
    → Held b.status.bucket_id h
    → Safe HeldBefore (Post Anything) h (reconcile driver b)
unfolding reconcile withdraw provision_if_supported
reconcile-Safe driver h b k = ground (
  arith,
  reconcile_delete-Safe h b,
  provision_with-Safe HeldBefore driver (object_protocol_list_from_api_list b.spec.protocols) h b
      (λ required. provision-Safe (b.spec.existing_bucket_id != "") required h b k),
)

report-Safe :
    (driver : DriverInfo) (render : Error → String) (h : List Event)
    (p : Result (Unit {0}) × Bucket)
    → Safe HeldBefore (λ g o. Unit) h (report driver render p)
unfolding report
report-Safe driver render h (err e, b) = ground arith
report-Safe driver render h (ok a, b) = ground arith

-- In every run of `Reconcile`, whatever the API server and the driver answer, the driver is told to
-- create or to look up a backend bucket only under an ID that is not empty and that the API server
-- has: an earlier answer shows it in the Bucket's status, or an earlier status update that succeeded
-- wrote it there.
pub reconcile_request-HeldBefore :
    (driver : DriverInfo) (render : Error → String) (req : NamespacedName)
    → Safe HeldBefore (λ g o. Unit) [] (reconcile_request driver render req)
reconcile_request-HeldBefore driver render req =
    reconcile_request-Safe HeldBefore driver render req tt
      (λ b. reconcile-Safe driver _ b (inl refl)) (report-Safe driver render)
