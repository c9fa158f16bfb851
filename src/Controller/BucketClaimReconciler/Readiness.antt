-- ===== src/Controller/BucketClaimReconciler/Readiness.antt =====
-- A BucketClaim gets its Bucket, and becomes ready with it, where the API server cooperates.
use cosi.Base.{◌!=◌}
use cosi.Base.{String, true, false, none, some, List, ◌∷◌, ◌⊎◌, ◌≡◌, ◌≢◌, arith}
use cosi.Base.Lists.{is_empty}
use cosi.Errors.{not_found, Reason, ok}
use cosi.Api.Buckets.{Bucket, BucketClass}
use cosi.Api.Claims.{BucketClaim}
use cosi.Effects.{Call, Reply, done, failed}
use cosi.Effects.Run.{Event}
use cosi.Effects.Ending.{Ends, Well}
use cosi.Controller.Binding.{
  determine_bucket_name, bucket_is_bound_to_claim, generate_intermediate_bucket,
}
use cosi.Controller.Binding.Laws.{generate_intermediate_bucket-IsBound, determine_bucket_name_iff}
use cosi.Controller.ClaimProvision.{bind_claim, finish}
use cosi.Controller.BucketClaimReconciler.Progress.{
  Kept, Serves, Created, Fetched, find_existing-Ends, find_new-Ends, provision-Ends,
}
use cosi.Controller.BucketClaimReconciler.{reconcile, reconcile_named}

-- The last call wrote the claim, which has the name of its Bucket and says that it is as ready as
-- that one.
abbrev pub IsReadyAs : Bucket → List Event → Unit {0} → BucketClaim → Type 0
IsReadyAs bucket ((Call.update_bucket_claim_status w, done d) ∷ h) u c =
    (d ≡ c)
    × (c.status.bound_bucket_name ≡ bucket.metadata.name)
    × (c.status.ready_to_use ≡ some true)
    × (c.status.protocols ≡ bucket.status.protocols)
    × (c.status.error ≡ none)
IsReadyAs bucket _ u c = ⊥

-- The last call wrote the claim `d`, which has this name for its Bucket and is not ready, and the
-- calls before it created that Bucket.
abbrev pub IsWaiting :
    String → BucketClaim → BucketClass → List Event → Unit {0} → BucketClaim → Type 0
IsWaiting name c class ((Call.update_bucket_claim_status w, done d') ∷ h) u d =
    (d' ≡ d)
    × (d.status.bound_bucket_name ≡ name)
    × (d.status.ready_to_use ≡ some false)
    × Created name c class h
IsWaiting name c class _ u d = ⊥

abbrev NamedAs : String → List Event → BucketClaim → Type 0
NamedAs name g d = d.status.bound_bucket_name ≡ name

bind_existing-Ends :
    (bucket : Bucket) (class : BucketClass) (c : BucketClaim) (g : List Event) (d : BucketClaim)
    → (c.status.bound_bucket_name ≡ "") ⊎ (c.status.bound_bucket_name ≡ bucket.metadata.name)
    → Kept c g tt d
    → Fetched bucket.metadata.name bucket g
    → Ends
        (Serves bucket.metadata.name (done bucket) c.spec.bucket_class_name class)
        (Well (λ g u d. NamedAs bucket.metadata.name g d))
        g
        (bind_claim bucket.metadata.name d)
unfolding bind_claim
bind_existing-Ends bucket class c g d n k f = ground arith

finish_ready-Ends :
    (bucket : Bucket) (class : BucketClass) (class_name : String) (g : List Event) (b : Bucket)
    (d : BucketClaim)
    → bucket.status.ready_to_use ≡ some true
    → bucket.status.bucket_id ≢ ""
    → is_empty bucket.status.protocols ≡ false
    → b ≡ bucket
    → NamedAs bucket.metadata.name g d
    → Ends
        (Serves bucket.metadata.name (done bucket) class_name class)
        (Well (IsReadyAs bucket))
        g
        (finish b d)
unfolding finish
finish_ready-Ends bucket class class_name g b d r i p s n = ground arith

bind_new-Ends :
    (name text : String) (class : BucketClass) (c : BucketClaim) (g : List Event) (d : BucketClaim)
    → c.status.bound_bucket_name ≡ ""
    → c.status.ready_to_use ≡ none
    → Kept c g tt d
    → Created name c class g
    → Ends
        (Serves name (failed not_found text) c.spec.bucket_class_name class)
        (Well (λ g u d. IsWaiting name c class g tt d))
        g
        (bind_claim name d)
unfolding bind_claim
bind_new-Ends name text class c g d n r k m = ground arith

finish_new-Ends :
    (name text : String) (class : BucketClass) (c : BucketClaim) (g : List Event) (b : Bucket)
    (d : BucketClaim)
    → b ≡ generate_intermediate_bucket c class name
    → IsWaiting name c class g tt d
    → Ends
        (Serves name (failed not_found text) c.spec.bucket_class_name class)
        (Well (IsWaiting name c class))
        g
        (finish b d)
unfolding finish generate_intermediate_bucket
finish_new-Ends name text class c g b d s w = ground arith

-- Where every write succeeds and the API server has, under the name determined for the claim, a Bucket
-- of that name which is bound to the claim, is ready, has an ID and has protocols (other names may
-- answer anything), `reconcile` of the claim, which is not being deleted, ends without an error. Its
-- last call writes the claim as it is then: bound to that Bucket's name and ready, with the protocols
-- of the Bucket and no error.
pub reconcile-IsReadyAs :
    (class : BucketClass) (bucket : Bucket) (c : BucketClaim) (h : List Event)
    → determine_bucket_name c ≡ ok bucket.metadata.name
    → c.metadata.deletion_timestamp ≡ none
    → bucket_is_bound_to_claim bucket c ≡ ok true
    → bucket.status.ready_to_use ≡ some true
    → bucket.status.bucket_id ≢ ""
    → is_empty bucket.status.protocols ≡ false
    → Ends
        (Serves bucket.metadata.name (done bucket) c.spec.bucket_class_name class)
        (Well (IsReadyAs bucket))
        h
        (reconcile c)
unfolding reconcile reconcile_named
reconcile-IsReadyAs class bucket c h n t b r i p =
    let name = bucket.metadata.name in
    let static = c.spec.existing_bucket_name != "" in
    let (determined, filled, named) = (determine_bucket_name_iff c name).0 n in
    ground (
      arith,
      provision-Ends name static (done bucket) class c bucket b (Fetched name bucket) (NamedAs name)
          (IsReadyAs bucket) (λ g d. bind_existing-Ends bucket class c g d named)
          (λ g b d. finish_ready-Ends bucket class c.spec.bucket_class_name g b d r i p) h
          (find_existing-Ends name static class c bucket),
    )

-- Where every write succeeds, and the API server has the class that a new dynamic claim with a UID
-- names and no Bucket under the name determined for the claim (other names may answer anything),
-- `reconcile` of the claim ends without an error. Its last calls read the Bucket under that name, read
-- the class that the claim names, create the Bucket generated from the claim and the class under that
-- name, and write the claim as it is then: bound to the name and not ready.
pub reconcile-IsWaiting :
    (name text : String) (class : BucketClass) (c : BucketClaim) (h : List Event)
    → determine_bucket_name c ≡ ok name
    → c.metadata.deletion_timestamp ≡ none
    → c.metadata.uid ≢ ""
    → c.spec.existing_bucket_name ≡ ""
    → c.spec.bucket_class_name ≢ ""
    → c.status.bound_bucket_name ≡ ""
    → c.status.ready_to_use ≡ none
    → Ends
        (Serves name (failed not_found text) c.spec.bucket_class_name class)
        (Well (IsWaiting name c class))
        h
        (reconcile c)
unfolding reconcile reconcile_named
reconcile-IsWaiting name text class c h n t u e k b r =
    let none_yet : Reply Reason Bucket = failed not_found text in
    ground (
      arith,
      provision-Ends name false none_yet class c (generate_intermediate_bucket c class name)
          (generate_intermediate_bucket-IsBound c class name u) (Created name c class)
          (λ g d. IsWaiting name c class g tt d) (IsWaiting name c class)
          (λ g d. bind_new-Ends name text class c g d b r) (finish_new-Ends name text class c) h
          (λ g d. find_new-Ends name text class c g d k b),
    )
