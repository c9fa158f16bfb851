-- ===== src/Sidecar/BucketReconciler/Readiness.antt =====
-- A Bucket becomes ready only by a provisioning call that the driver answered well.
use cosi.Base.{◌!=◌, if◌then◌else◌}
use cosi.Base.{String, Bool, true, false, none, some, List, [], ◌∷◌, ◌≡◌, ◌≢◌, ◌⊎◌, arith}
use cosi.Errors.{ok}
use cosi.Rpc.{ProtocolType}
use cosi.Api.Buckets.{Bucket}
use cosi.Driver.{DriverInfo}
use cosi.Effects.{Call, done}
use cosi.Effects.Run.{Event}
use cosi.Effects.Safety.{Policy, Safe, Post, Safe-seq}
use cosi.Translator.{bucket_info_to_api}
use cosi.Sidecar.BucketSteps.{
  object_protocol_list_from_api_list, ProvisionedBucketDetails, dynamic_provision, static_provision,
  unsupported_by_bucket,
}
use cosi.Sidecar.BucketReconciler.Compose.{Anything, provision_with-Safe}
use cosi.Sidecar.BucketReconciler.{
  protect, determine_bucket_id, ensure_recorded, complete, provision, reconcile_delete, clean_up,
  withdraw, delete_backend, unprotect, provision_if_supported, reconcile,
}

-- The last call provisioned the bucket of this ID, and its answer translates to these protocols and
-- this info.
abbrev pub Provisioned : String → List String → List (String × String) → List Event → Type 0
Provisioned id protos info ((Call.driver_create_bucket r, done (some bi)) ∷ h) =
    (r.bucket_id ≡ id) × (bucket_info_to_api (some bi) none ≡ ok (protos, info))
Provisioned id protos info ((Call.driver_get_bucket r, done (some bi)) ∷ h) =
    (r.bucket_id ≡ id) × (bucket_info_to_api (some bi) none ≡ ok (protos, info))
Provisioned id protos info _ = ⊥

-- A status update takes readiness back; or it follows a provisioning call under the ID that it
-- writes, carries over what the driver answered, and the protocols are not none and include all
-- that the Bucket requires.
abbrev pub ReadyIfProvisioned : Policy
ReadyIfProvisioned h (Call.update_bucket_status w) =
    (w.status.ready_to_use ≡ some false)
    ⊎ (Provisioned w.status.bucket_id w.status.protocols w.status.bucket_info h
        × (w.status.protocols ≢ [])
        × (unsupported_by_bucket w.status.protocols w.spec.protocols ≡ []))
ReadyIfProvisioned h _ = Unit

abbrev Details : String → List Event → ProvisionedBucketDetails → Bucket → Type 0
Details id g d b = Provisioned id d.supported_protos d.all_proto_bucket_info g

workflow-Safe :
    (static : Bool) (id : String) (required : List ProtocolType) (h : List Event) (b : Bucket)
    → Safe ReadyIfProvisioned
        (Post (Details id))
        h
        ((if static then static_provision id required else dynamic_provision id required) b)
unfolding static_provision dynamic_provision
workflow-Safe true id required h b = ground arith
workflow-Safe false id required h b = ground arith

complete-Safe :
    (id : String) (d : ProvisionedBucketDetails) (h : List Event) (b : Bucket)
    → Details id h d b
    → Safe ReadyIfProvisioned (Post Anything) h (complete id d b)
unfolding complete
complete-Safe id d h b k = ground arith

protect-Safe : (h : List Event) (b : Bucket) → Safe ReadyIfProvisioned (Post Anything) h (protect b)
unfolding protect
protect-Safe h b = ground arith

determine_bucket_id-Safe :
    (required : List ProtocolType) (h : List Event) (b : Bucket)
    → Safe ReadyIfProvisioned (Post Anything) h (determine_bucket_id required b)
unfolding determine_bucket_id
determine_bucket_id-Safe required h b = ground arith

ensure_recorded-Safe :
    (id : String) (h : List Event) (b : Bucket)
    → Safe ReadyIfProvisioned (Post Anything) h (ensure_recorded id b)
unfolding ensure_recorded
ensure_recorded-Safe id h b = ground arith

provision-Safe :
    (static : Bool) (required : List ProtocolType) (h : List Event) (b : Bucket)
    → Safe ReadyIfProvisioned (Post Anything) h (provision static required b)
unfolding provision
provision-Safe static required h b =
    Safe-seq ReadyIfProvisioned Anything Anything protect _ h b (protect-Safe h b) λ g u b' _.
      Safe-seq ReadyIfProvisioned Anything Anything (determine_bucket_id required) _ g b'
        (determine_bucket_id-Safe required g b')
        λ g id b' _.
          Safe-seq ReadyIfProvisioned Anything Anything (ensure_recorded id) _ g b'
            (ensure_recorded-Safe id g b')
            λ g u b' _.
              Safe-seq ReadyIfProvisioned (Details id) Anything
                (if static then static_provision id required else dynamic_provision id required) _ g
                b' (workflow-Safe static id required g b')
                λ g details b' k. complete-Safe id details g b' k

-- In every run of `reconcile`, from any history and whatever the API server and the driver answer,
-- each status update of a Bucket either says that it is not ready, or comes directly after the
-- driver's successful answer to a create or get call for the ID that the update writes; then it
-- writes the protocols and the info of that answer, which holds every protocol that the Bucket
-- requires and at least one.
pub reconcile-ReadyIfProvisioned :
    (driver : DriverInfo) (h : List Event) (b : Bucket)
    → Safe ReadyIfProvisioned (Post Anything) h (reconcile driver b)
unfolding reconcile withdraw provision_if_supported reconcile_delete clean_up delete_backend
    unprotect
reconcile-ReadyIfProvisioned driver h b = ground (
  arith,
  provision_with-Safe ReadyIfProvisioned driver
      (object_protocol_list_from_api_list b.spec.protocols) h b
      (λ required. provision-Safe (b.spec.existing_bucket_id != "") required h b),
)
