-- ===== src/Controller/BucketClaimReconciler/Protection.antt =====
-- A BucketClaim keeps its protection finalizer until its Bucket is gone or is not its own to delete.
use cosi.Base.{
  String, Bool, true, false, none, some, Option, List, [], ◌∷◌, ◌≡◌, refl, ◌≢◌, ◌⊎◌, arith, ◌!=◌,
}
use cosi.Base.Dict.{has, has-insert}
use cosi.Base.Lists.{contains, contains-append_self}
use cosi.Errors.{Error, not_found, already_exists, other_reason, Result, ok, err}
use cosi.Api.Meta.{NamespacedName}
use cosi.Api.Names.{protection_finalizer, bucket_claim_being_deleted, retain, delete}
use cosi.Api.Buckets.{Bucket}
use cosi.Api.Claims.{BucketClaim}
use cosi.Effects.{Call, done, failed}
use cosi.Effects.Run.{Event}
use cosi.Effects.Safety.{Policy, Safe, Post, Safe-seq}
use cosi.Controller.Binding.{determined_name, determine_bucket_name, bucket_is_bound_to_claim}
use cosi.Controller.Binding.Laws.{determine_bucket_name_iff}
use cosi.Controller.ClaimProvision.{
  global, protect, find_bucket, bind_to, ensure_bound, ensure_static_bucket_bound, bind_claim,
  finish, provision,
}
use cosi.Controller.ClaimDeletion.{
  withdrawn, withdraw, find_and_part, part_from_found, part_from, release, annotate,
  delete_bucket_of, remove_claim_finalizer, reconcile_delete,
}
use cosi.Controller.BucketClaimReconciler.{reconcile, reconcile_named, report, reconcile_request}
use cosi.Controller.BucketClaimReconciler.Compose.{Anything, reconcile_request-Safe}

-- The object is the Bucket under the name of the claim: the one determined for it, which is the one
-- that it is bound to where it is bound.
abbrev IsNameOf : NamespacedName → BucketClaim → Type 0
IsNameOf n c =
    (determined_name c ≡ n.name)
    × (n.namespace ≡ "")
    × ((c.status.bound_bucket_name ≡ "") ⊎ (c.status.bound_bucket_name ≡ n.name))

-- The same claim, with another status.
abbrev HasOnlyNewStatus : BucketClaim → BucketClaim → Type 0
HasOnlyNewStatus c c0 = (c.metadata ≡ c0.metadata) × (c.spec ≡ c0.spec)

-- The request fetched a claim that is being deleted, whose Bucket has the name `n`, and wrote it as
-- not ready; `P` holds of the claim that the server answered.
abbrev Parting : NamespacedName → (BucketClaim → Type 0) → List Event → Type 0
Parting n P
      ((Call.update_bucket_claim_status c, done c') ∷ (Call.get_bucket_claim m, done c0) ∷ []) =
    (c0.metadata.deletion_timestamp ≢ none)
    × HasOnlyNewStatus c c0
    × (c.status.ready_to_use ≡ some false)
    × IsNameOf n c0
    × P c'
Parting n P _ = ⊥

abbrev IsMarked : Bucket → Type 0
IsMarked b = has bucket_claim_being_deleted b.metadata.annotations ≡ true

-- The same Bucket, with other annotations.
abbrev HasOnlyNewAnnotations : Bucket → Bucket → Type 0
HasOnlyNewAnnotations w b =
    w ≡ record b { metadata = record (b.metadata) { annotations = w.metadata.annotations } }

-- The same claim, with other finalizers.
abbrev HasOnlyNewFinalizers : BucketClaim → BucketClaim → Type 0
HasOnlyNewFinalizers w c =
    w ≡ record c { metadata = record (c.metadata) { finalizers = w.metadata.finalizers } }

-- The claim is written as the server answered it but for its finalizers, and its Bucket does not
-- exist, or is not bound to it, or is to be retained and its annotation says that the claim is being
-- deleted.
abbrev Released : BucketClaim → List Event → Type 0
Released w ((Call.get_bucket n, failed not_found text) ∷ h) = Parting n (HasOnlyNewFinalizers w) h
Released w ((Call.get_bucket n, done b) ∷ h) =
    Parting n
      (λ c.
        HasOnlyNewFinalizers w c
        × ((bucket_is_bound_to_claim b c ≢ ok true)
            ⊎ ((b.spec.deletion_policy ≡ retain) × IsMarked b)))
      h
Released w ((Call.update_bucket m, done b') ∷ (Call.get_bucket n, done b) ∷ h) =
    Parting n
      (λ c.
        HasOnlyNewFinalizers w c
        × (b.spec.deletion_policy ≡ retain)
        × HasOnlyNewAnnotations m b
        × IsMarked m)
      h
Released w _ = ⊥

-- The Bucket is the one under the claim's name as the server last answered it, and is not being
-- deleted yet; it is bound to the claim, its policy is to be deleted, and its annotation is there.
abbrev Deletable : Bucket → List Event → Type 0
Deletable x ((Call.get_bucket n, done b) ∷ h) =
    Parting n
      (λ c.
        (x ≡ b)
        × (x.metadata.deletion_timestamp ≡ none)
        × (bucket_is_bound_to_claim b c ≡ ok true)
        × (b.spec.deletion_policy ≡ delete)
        × IsMarked b)
      h
Deletable x ((Call.update_bucket m, done b') ∷ (Call.get_bucket n, done b) ∷ h) =
    Parting n
      (λ c.
        (x ≡ b')
        × (x.metadata.deletion_timestamp ≡ none)
        × (bucket_is_bound_to_claim b c ≡ ok true)
        × (b.spec.deletion_policy ≡ delete)
        × HasOnlyNewAnnotations m b
        × IsMarked m)
      h
Deletable x _ = ⊥

abbrev pub KeepsProtection : Policy
KeepsProtection h (Call.update_bucket_claim c) =
    (contains c.metadata.finalizers protection_finalizer ≡ true) ⊎ Released c h
KeepsProtection h (Call.delete_bucket b) = Deletable b h
KeepsProtection h _ = Unit

protect-Safe :
    (h : List Event) (c : BucketClaim) → Safe KeepsProtection (Post Anything) h (protect c)
unfolding protect
protect-Safe h c = ground (arith, contains-append_self c.metadata.finalizers protection_finalizer)

find_bucket-Safe :
    (name : String) (static : Bool) (h : List Event) (c : BucketClaim)
    → Safe KeepsProtection (Post Anything) h (find_bucket name static c)
unfolding find_bucket
find_bucket-Safe name static h c = ground arith

bind_to-Safe :
    (name : String) (static : Bool) (b : Option Bucket) (h : List Event) (c : BucketClaim)
    → Safe KeepsProtection (Post Anything) h (bind_to name static b c)
unfolding bind_to ensure_bound ensure_static_bucket_bound bind_claim finish
bind_to-Safe name static b h c = ground arith

provision-Safe :
    (name : String) (static : Bool) (h : List Event) (c : BucketClaim)
    → Safe KeepsProtection (Post Anything) h (provision name static c)
unfolding provision
provision-Safe name static h c =
    Safe-seq KeepsProtection Anything Anything protect _ h c (protect-Safe h c) λ g u c' _.
      Safe-seq KeepsProtection Anything Anything (find_bucket name static) _ g c'
        (find_bucket-Safe name static g c') λ g b c' _. bind_to-Safe name static b g c'

-- The calls of a deletion up to its Bucket.
abbrev calls_before :
    NamespacedName → NamespacedName → BucketClaim → BucketClaim → Bucket → List Event
calls_before req n c c' b =
    (Call.get_bucket n, done b)
    ∷ (Call.update_bucket_claim_status (withdrawn c), done c')
    ∷ (Call.get_bucket_claim req, done c)
    ∷ []

release-Safe :
    (req n : NamespacedName) (c c' : BucketClaim) (b : Bucket)
    → c.metadata.deletion_timestamp ≢ none
    → IsNameOf n c
    → bucket_is_bound_to_claim b c' ≡ ok true
    → Safe KeepsProtection (Post Anything) (calls_before req n c c' b) (release b c')
unfolding release annotate delete_bucket_of remove_claim_finalizer
release-Safe req n c c' b deleting named bound = ground (
  arith,
  has-insert bucket_claim_being_deleted bucket_claim_being_deleted "" b.metadata.annotations,
)

part_from-Safe :
    (static : Bool) (req n : NamespacedName) (c c' : BucketClaim) (b : Bucket)
    → c.metadata.deletion_timestamp ≢ none
    → IsNameOf n c
    → Safe KeepsProtection (Post Anything) (calls_before req n c c' b) (part_from static b c')
unfolding part_from remove_claim_finalizer
part_from-Safe static req n c c' b deleting named =
    ground (arith, release-Safe req n c c' b deleting named)

IsNameOf-global :
    (name : String) (c : BucketClaim) → determine_bucket_name c ≡ ok name → IsNameOf (global name) c
IsNameOf-global name c k =
    let (determined, filled, bound) = (determine_bucket_name_iff c name).0 k in
    (determined, refl, bound)

reconcile_delete-Safe :
    (name : String) (static : Bool) (req : NamespacedName) (c : BucketClaim)
    → c.metadata.deletion_timestamp ≢ none
    → determine_bucket_name c ≡ ok name
    → Safe KeepsProtection
        (Post Anything)
        ((Call.get_bucket_claim req, done c) ∷ [])
        (reconcile_delete name static c)
unfolding reconcile_delete withdraw find_and_part part_from_found remove_claim_finalizer
reconcile_delete-Safe name static req c deleting named = (
  tt,
  elim [
    | failed k text ↦ tt
    | done c' ↦ (
      tt,
      elim [
        | done b ↦
            part_from-Safe static req (global name) c c' b deleting (IsNameOf-global name c named)
        | failed not_found text ↦ ground (arith, IsNameOf-global name c named)
        | failed already_exists text ↦ tt
        | failed other_reason text ↦ tt
      ],
    )
  ],
)

reconcile_named-Safe :
    (r : Result String) (req : NamespacedName) (c : BucketClaim)
    → determine_bucket_name c ≡ r
    → Safe KeepsProtection
        (Post Anything)
        ((Call.get_bucket_claim req, done c) ∷ [])
        (reconcile_named r c)
unfolding reconcile_named
reconcile_named-Safe (err e) req c k = tt
reconcile_named-Safe (ok name) req c k = ground (
  arith,
  reconcile_delete-Safe name (c.spec.existing_bucket_name != "") req c,
  provision-Safe name (c.spec.existing_bucket_name != "") ((Call.get_bucket_claim req, done c) ∷ [])
      c,
)

report-Safe :
    (render : Error → String) (h : List Event) (p : Result (Unit {0}) × BucketClaim)
    → Safe KeepsProtection (λ g o. Unit) h (report render p)
unfolding report
report-Safe render h (err e, c) = ground arith
report-Safe render h (ok u, c) = ground arith

-- In every run of `Reconcile` of a BucketClaim, whatever the API server answers: the claim is written
-- without the protection finalizer only if it is being deleted, it was written as not ready, and a
-- read of the Bucket under the claim's name followed, which found that the Bucket does not exist, is
-- not bound to the claim, or has the policy Retain and, itself or in a write after the read, the
-- annotation that the claim is being deleted; the claim that is written differs from the one that the
-- server answered by its finalizers alone; and a Bucket is deleted only after the same calls, if it is
-- the very Bucket that they read or annotated, which is not being deleted yet, is bound to the claim,
-- has the policy Delete and has that annotation.
pub reconcile_request-KeepsProtection :
    (render : Error → String) (req : NamespacedName)
    → Safe KeepsProtection (λ g o. Unit) [] (reconcile_request render req)
unfolding reconcile
reconcile_request-KeepsProtection render req =
    reconcile_request-Safe KeepsProtection render req tt
      (λ c. reconcile_named-Safe (determine_bucket_name c) req c refl) (report-Safe render)
