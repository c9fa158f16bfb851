-- ===== src/Controller/BucketClaimReconciler/Progress.antt =====
-- How `reconcile` of a BucketClaim proceeds where the API server cooperates.
use cosi.Base.{String, Bool, true, false, Option, none, some, List, ◌∷◌, ◌≡◌, ◌≢◌, arith}
use cosi.Errors.{not_found, Reason, ok}
use cosi.Api.Buckets.{Bucket, BucketClass}
use cosi.Api.Claims.{BucketClaim}
use cosi.Effects.{Call, Reply, done, failed}
use cosi.Effects.Run.{Event}
use cosi.Effects.Progress.{Assumption}
use cosi.Effects.Ending.{Ends, Well, Ends-seq}
use cosi.Controller.Binding.{bucket_is_bound_to_claim, generate_intermediate_bucket}
use cosi.Controller.ClaimProvision.{
  global, protect, find_bucket, found, missing, create_intermediate_bucket, create_from, bind_to,
  ensure_bound, bind_claim, finish, provision,
}

-- Writes succeed and store what they were given; a get of the Bucket of this name, and one of the
-- BucketClass of this name, answer so. A get of any other name may answer anything.
abbrev pub Serves : String → Reply Reason Bucket → String → BucketClass → Assumption
Serves name bucket class_name class (Call.update_bucket_claim c) r = r ≡ done c
Serves name bucket class_name class (Call.update_bucket_claim_status c) r = r ≡ done c
Serves name bucket class_name class (Call.get_bucket n) r = n ≡ global name → r ≡ bucket
Serves name bucket class_name class (Call.create_bucket b) r = r ≡ done b
Serves name bucket class_name class (Call.get_bucket_class n) r =
    n ≡ global class_name → r ≡ done class
Serves name bucket class_name class _ r = Unit

-- The claim is the given one, apart from its finalizers.
abbrev pub Kept : BucketClaim → {A : Type 0} → List Event → A → BucketClaim → Type 0
Kept c g a d =
    (d.spec ≡ c.spec)
    × (d.status ≡ c.status)
    × (d.metadata.name ≡ c.metadata.name)
    × (d.metadata.namespace ≡ c.metadata.namespace)
    × (d.metadata.uid ≡ c.metadata.uid)

-- The last calls read the Bucket of this name and found none, read the class, and created this one.
abbrev pub Created : String → BucketClaim → BucketClass → List Event → Type 0
Created name c class
      ((Call.create_bucket b, done b')
        ∷ (Call.get_bucket_class m, done class')
        ∷ (Call.get_bucket n, failed not_found text)
        ∷ h) =
    (n ≡ global name)
    × (m ≡ global c.spec.bucket_class_name)
    × (b ≡ generate_intermediate_bucket c class name)
Created name c class _ = ⊥

-- The last call read the Bucket of this name.
abbrev pub Fetched : String → Bucket → List Event → Type 0
Fetched name bucket ((Call.get_bucket n, done b) ∷ h) = (n ≡ global name) × (b ≡ bucket)
Fetched name bucket _ = ⊥

-- What was found is the given Bucket, by calls that fit `H`.
abbrev pub Got :
    BucketClaim → Bucket → (List Event → Type 0) → List Event → Option Bucket → BucketClaim → Type 0
Got c bucket H g o d = (o ≡ some bucket) × Kept c g tt d × H g

abbrev Bound :
    BucketClaim → Bucket → (List Event → Type 0) → List Event → Bucket → BucketClaim → Type 0
Bound c bucket H g b d = (b ≡ bucket) × Kept c g tt d × H g

is_bound-Kept :
    (bucket : Bucket) (g : List Event) (c d : BucketClaim)
    → Kept c g tt d
    → bucket_is_bound_to_claim bucket d ≡ bucket_is_bound_to_claim bucket c
unfolding bucket_is_bound_to_claim
is_bound-Kept bucket g c d k = ground arith

pub find_existing-Ends :
    (name : String) (static : Bool) (class : BucketClass) (c : BucketClaim) (bucket : Bucket)
    (g : List Event) (d : BucketClaim)
    → Kept c g tt d
    → Ends
        (Serves name (done bucket) c.spec.bucket_class_name class)
        (Well (Got c bucket (Fetched name bucket)))
        g
        (find_bucket name static d)
unfolding find_bucket found
find_existing-Ends name static class c bucket g d k = ground arith

pub find_new-Ends :
    (name text : String) (class : BucketClass) (c : BucketClaim) (g : List Event) (d : BucketClaim)
    → c.spec.bucket_class_name ≢ ""
    → c.status.bound_bucket_name ≡ ""
    → Kept c g tt d
    → Ends
        (Serves name (failed not_found text) c.spec.bucket_class_name class)
        (Well (Got c (generate_intermediate_bucket c class name) (Created name c class)))
        g
        (find_bucket name false d)
unfolding find_bucket found missing create_intermediate_bucket create_from
    generate_intermediate_bucket
find_new-Ends name text class c g d n b k = ground arith

-- The Bucket that was found is bound to the claim; `bind_claim` and `finish` end as assumed.
module _ (name : String) (static : Bool) (answer : Reply Reason Bucket) (class : BucketClass)
    (c : BucketClaim) (bucket : Bucket) (bound : bucket_is_bound_to_claim bucket c ≡ ok true)
    (H : List Event → Type 0) (P : List Event → BucketClaim → Type 0)
    (R : List Event → Unit {0} → BucketClaim → Type 0)
    (bind_claim-Ends : (g : List Event) (d : BucketClaim)
      → Kept c g tt d
      → H g
      → Ends
          (Serves name answer c.spec.bucket_class_name class)
          (Well (λ g u d. P g d))
          g
          (bind_claim name d))
    (finish-Ends : (g : List Event) (b : Bucket) (d : BucketClaim)
      → b ≡ bucket
      → P g d
      → Ends (Serves name answer c.spec.bucket_class_name class) (Well R) g (finish b d)) where
  abbrev Server : Assumption
  Server = Serves name answer c.spec.bucket_class_name class

  protect-Ends : (g : List Event) → Ends Server (Well (Kept c)) g (protect c)
  unfolding protect
  protect-Ends g = ground arith

  ensure_bound-Ends :
      (g : List Event) (b : Bucket) (d : BucketClaim)
      → Bound c bucket H g b d
      → Ends Server (Well (Bound c bucket H)) g (ensure_bound static b d)
  unfolding ensure_bound
  ensure_bound-Ends g b d k = ground (arith, is_bound-Kept b g c d (k.1))

  bind_to-Ends :
      (g : List Event) (o : Option Bucket) (d : BucketClaim)
      → Got c bucket H g o d
      → Ends Server (Well R) g (bind_to name static o d)
  unfolding bind_to
  bind_to-Ends g none d k = ground arith
  bind_to-Ends g (some b) d k =
      Ends-seq Server (Bound c bucket H) R (ensure_bound static b) _ g d
        (ensure_bound-Ends g b d (ground arith, k.1, k.2))
        λ g b d k.
          Ends-seq Server (λ g u d. P g d) R (bind_claim name) _ g d
            (bind_claim-Ends g d (k.1) (k.2)) λ g _ d p. finish-Ends g b d (k.0) p

  pub provision-Ends :
      (h : List Event)
      → ((g : List Event) (d : BucketClaim)
          → Kept c g tt d
          → Ends Server (Well (Got c bucket H)) g (find_bucket name static d))
      → Ends Server (Well R) h (provision name static c)
  unfolding provision
  provision-Ends h find = Ends-seq Server (Kept c) R protect _ h c (protect-Ends h) λ g _ d k.
      Ends-seq Server (Got c bucket H) R (find_bucket name static) _ g d (find g d k)
        λ g o d k. bind_to-Ends g o d k
