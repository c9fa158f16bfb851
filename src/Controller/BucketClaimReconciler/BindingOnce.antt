-- ===== src/Controller/BucketClaimReconciler/BindingOnce.antt =====
-- Buckets and claims are bound once: no reference is overwritten, and no second Bucket is made.
use cosi.Base.{
  String, Bool, true, none, some, Option, List, [], ◌∷◌, false, ◌≡◌, refl, ◌⊎◌, inr, arith, ◌!=◌,
}
use cosi.Errors.{Error, not_found, already_exists, other_reason, Result, ok, err}
use cosi.Api.Meta.{NamespacedName}
use cosi.Api.Buckets.{Bucket}
use cosi.Api.Claims.{BucketClaim}
use cosi.Effects.{Call, done, failed}
use cosi.Effects.Run.{Event}
use cosi.Effects.Safety.{Policy, Safe, Post, Safe-seq}
use cosi.Controller.Binding.{determine_bucket_name, generate_intermediate_bucket}
use cosi.Controller.ClaimProvision.{
  protect, find_bucket, found, missing, create_intermediate_bucket, create_from, bind_to,
  ensure_bound, ensure_static_bucket_bound, bind_claim, finish, provision,
}
use cosi.Controller.ClaimDeletion.{
  withdraw, find_and_part, part_from_found, part_from, release, annotate, delete_bucket_of,
  remove_claim_finalizer, reconcile_delete,
}
use cosi.Controller.BucketClaimReconciler.{reconcile, reconcile_named, report, reconcile_request}
use cosi.Controller.BucketClaimReconciler.Compose.{Anything, reconcile_request-Safe}

-- The claim as the server last showed it.
abbrev last_claim : List Event → Option BucketClaim
last_claim [] = none
last_claim ((Call.get_bucket_claim n, done c) ∷ h) = some c
last_claim ((Call.update_bucket_claim c, done c') ∷ h) = some c'
last_claim ((Call.update_bucket_claim_status c, done c') ∷ h) = some c'
last_claim (e ∷ h) = last_claim h

-- A write of a Bucket that was just fetched changes nothing of its spec but an empty UID in the
-- reference to its claim, which becomes the UID of the claim.
abbrev BindsOnce : Bucket → List Event → Type 0
BindsOnce w ((Call.get_bucket n, done b) ∷ h) =
    (w.spec ≡ b.spec)
    ⊎ ((c : BucketClaim) × (last_claim h ≡ some c)
        × (b.spec.bucket_claim_ref.uid ≡ "")
        × (w.spec ≡ record (b.spec) {
          bucket_claim_ref = record (b.spec.bucket_claim_ref) { uid = c.metadata.uid };
        }))
BindsOnce w _ = ⊥

-- A Bucket is made for a claim that is bound to none and names no existing one, where the server just
-- said that no Bucket of the name exists, and from the claim and its class.
abbrev MadeOnce : Bucket → List Event → Type 0
MadeOnce x
      ((Call.get_bucket_class m, done class) ∷ (Call.get_bucket n, failed not_found text) ∷ h) =
    (c : BucketClaim) × (last_claim h ≡ some c)
    × (c.status.bound_bucket_name ≡ "")
    × (x ≡ generate_intermediate_bucket c class n.name)
MadeOnce x _ = ⊥

abbrev pub Once : Policy
Once h (Call.update_bucket w) = BindsOnce w h
Once h (Call.create_bucket x) = MadeOnce x h
Once h _ = Unit

abbrev InMemory : {A : Type 0} → List Event → A → BucketClaim → Type 0
InMemory g a c = last_claim g ≡ some c

protect-Safe :
    (h : List Event) (c : BucketClaim)
    → last_claim h ≡ some c
    → Safe Once (Post InMemory) h (protect c)
unfolding protect
protect-Safe h c k = ground arith

-- A Bucket that was found is the last thing that the server showed, or was just made for a claim
-- that names no existing one.
abbrev JustFound : Bool → List Event → Option Bucket → BucketClaim → Type 0
JustFound static ((Call.get_bucket n, done b) ∷ h) (some b') c = (b ≡ b') × (last_claim h ≡ some c)
JustFound static ((Call.create_bucket x, done b) ∷ h) (some b') c = static ≡ false
JustFound static _ (some b') c = ⊥
JustFound static _ none c = Unit

find_bucket-Safe :
    (name : String) (static : Bool) (h : List Event) (c : BucketClaim)
    → last_claim h ≡ some c
    → Safe Once (Post (JustFound static)) h (find_bucket name static c)
unfolding find_bucket found missing create_intermediate_bucket create_from
find_bucket-Safe name static h c k = (
  tt,
  elim [
    | done b ↦ (refl, k)
    | failed not_found text ↦ ground arith
    | failed already_exists text ↦ tt
    | failed other_reason text ↦ tt
  ],
)

uid_set-BindsOnce :
    (b : Bucket) (h : List Event) (c : BucketClaim)
    → JustFound true h (some b) c
    → b.spec.bucket_claim_ref.uid ≡ ""
    → BindsOnce
        (record b {
          spec = record (b.spec) {
            bucket_claim_ref = record (b.spec.bucket_claim_ref) { uid = c.metadata.uid };
          };
        })
        h
uid_set-BindsOnce b ((Call.get_bucket n, done b0) ∷ h) c k e = inr (c, k.1, rw k.0 e, rw k.0 refl)
uid_set-BindsOnce b ((Call.create_bucket x, done b0) ∷ h) c k e = cc
uid_set-BindsOnce b h c k e = elim k [ ]

ensure_bound-Safe :
    (static : Bool) (b : Bucket) (h : List Event) (c : BucketClaim)
    → JustFound static h (some b) c
    → Safe Once (Post Anything) h (ensure_bound static b c)
unfolding ensure_bound ensure_static_bucket_bound
ensure_bound-Safe true b h c k = ground (arith, uid_set-BindsOnce b h c k)
ensure_bound-Safe false b h c k = ground arith

bind_to-Safe :
    (name : String) (static : Bool) (b : Option Bucket) (h : List Event) (c : BucketClaim)
    → JustFound static h b c
    → Safe Once (Post Anything) h (bind_to name static b c)
unfolding bind_to bind_claim finish
bind_to-Safe name static none h c k = tt
bind_to-Safe name static (some b) h c k =
    Safe-seq Once Anything Anything (ensure_bound static b) _ h c (ensure_bound-Safe static b h c k)
      λ g b' c' _. ground arith

provision-Safe :
    (name : String) (static : Bool) (h : List Event) (c : BucketClaim)
    → last_claim h ≡ some c
    → Safe Once (Post Anything) h (provision name static c)
unfolding provision
provision-Safe name static h c k =
    Safe-seq Once InMemory Anything protect _ h c (protect-Safe h c k) λ g u c' k'.
      Safe-seq Once (JustFound static) Anything (find_bucket name static) _ g c'
        (find_bucket-Safe name static g c' k') λ g b c' k'. bind_to-Safe name static b g c' k'

part_from-Safe :
    (static : Bool) (n : NamespacedName) (h : List Event) (b : Bucket) (c : BucketClaim)
    → Safe Once (Post Anything) ((Call.get_bucket n, done b) ∷ h) (part_from static b c)
unfolding part_from release annotate delete_bucket_of remove_claim_finalizer
part_from-Safe static n h b c = ground arith

reconcile_delete-Safe :
    (name : String) (static : Bool) (h : List Event) (c : BucketClaim)
    → Safe Once (Post Anything) h (reconcile_delete name static c)
unfolding reconcile_delete withdraw find_and_part part_from_found remove_claim_finalizer
reconcile_delete-Safe name static h c = (
  tt,
  elim [
    | failed k text ↦ tt
    | done c' ↦ (
      tt,
      elim [
        | done b ↦ part_from-Safe static _ _ b c'
        | failed not_found text ↦ ground arith
        | failed already_exists text ↦ tt
        | failed other_reason text ↦ tt
      ],
    )
  ],
)

reconcile_named-Safe :
    (r : Result String) (h : List Event) (c : BucketClaim)
    → last_claim h ≡ some c
    → Safe Once (Post Anything) h (reconcile_named r c)
unfolding reconcile_named
reconcile_named-Safe (err e) h c k = tt
reconcile_named-Safe (ok name) h c k = ground (
  arith,
  reconcile_delete-Safe name (c.spec.existing_bucket_name != "") h c,
  provision-Safe name (c.spec.existing_bucket_name != "") h c,
)

report-Safe :
    (render : Error → String) (h : List Event) (p : Result (Unit {0}) × BucketClaim)
    → Safe Once (λ g o. Unit) h (report render p)
unfolding report
report-Safe render h (err e, c) = ground arith
report-Safe render h (ok u, c) = ground arith

-- In every run of `Reconcile` of a BucketClaim, whatever the API server answers: a Bucket is written
-- only directly after it was fetched, and its spec stays as it was but for an empty UID in the
-- reference to its claim, which may become the UID of the claim that the server last showed; and a
-- Bucket is created only where that claim is bound to none and the server just said that no Bucket of
-- the name exists, and it is the one generated from that claim and the class that was fetched.
pub reconcile_request-Once :
    (render : Error → String) (req : NamespacedName)
    → Safe Once (λ g o. Unit) [] (reconcile_request render req)
unfolding reconcile
reconcile_request-Once render req =
    reconcile_request-Safe Once render req tt
      (λ c. reconcile_named-Safe (determine_bucket_name c) _ c refl) (report-Safe render)
