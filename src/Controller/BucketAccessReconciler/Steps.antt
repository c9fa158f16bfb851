-- ===== src/Controller/BucketAccessReconciler/Steps.antt =====
-- A policy that allows every call of an initialization but the first is kept by the initialization.
use cosi.Base.{String, Option, none, some, List, [], arith}
use cosi.Base.Dict.{Dict}
use cosi.Errors.{Result, ok, err}
use cosi.Api.Meta.{NamespacedName}
use cosi.Api.Buckets.{Bucket}
use cosi.Api.Claims.{BucketClaim}
use cosi.Api.Accesses.{BucketAccess, BucketAccessClass, AccessedBucket}
use cosi.Effects.{Call, Program, keeping, lift}
use cosi.Effects.Run.{Event}
use cosi.Effects.Loops.{fold_map}
use cosi.Effects.Safety.{Policy, Post, Safe, Safe-bind, Safe-weaken, Safe-seq}
use cosi.Effects.History.{fold_map-All}
use cosi.Controller.AccessClaims.{
  Filling, marked, mark_claim, mark_all_bucket_claims_as_accessed, get_bucket_of, check_count,
  get_buckets_for_claims, get_all_bucket_claims,
}
use cosi.Controller.AccessClaims.Laws.{get_all_bucket_claims-Safe}
use cosi.Controller.BucketAccessReconciler.Compose.{Anything}
use cosi.Controller.BucketAccessReconciler.{
  protect, check_unique, fetch_claims, get_class, check_class, check_blockers, check_waitlist,
  compile, hand_over, initialize_from, initialize_once, initialize,
}

pub record InitializeAllowed (P : Policy) : Type 0 where
  pub orders : (g : List Event) → P g Call.order
  pub claims : (g : List Event) (n : NamespacedName) → P g (Call.get_bucket_claim n)
  pub marks : (g : List Event) (c : BucketClaim) → P g (Call.update_bucket_claim (marked c))
  pub classes : (g : List Event) (n : NamespacedName) → P g (Call.get_bucket_access_class n)
  pub buckets : (g : List Event) (n : NamespacedName) → P g (Call.get_bucket n)
  pub writes : (g : List Event) (a : BucketAccess) → P g (Call.update_bucket_access_status a)

module _ (P : Policy) (may : InitializeAllowed P) where
  lifted :
      {A : Type 0} (h : List Event) (p : Program (Result A)) (a : BucketAccess)
      → Safe P (λ g r. Unit) h p
      → Safe P (Post Anything) h (lift p a)
  lifted h p a k =
      Safe-bind P (Post Anything) h p (keeping a)
        (Safe-weaken P h p (λ g. elim [ ok b ↦ λ q. tt | err e ↦ λ q. tt ]) k)

  abbrev Always : {S : Type 0} → S → Type 0
  Always s = Unit

  abbrev Done : {A : Type 0} → A → List Event → Type 0
  Done x g = Unit

  mark_claim-Safe :
      (g : List Event) (e : String × Option BucketClaim) (s : Filling BucketClaim)
      → Safe P (λ g t. Always t → Always s × Done e g) g (mark_claim s e)
  unfolding mark_claim
  mark_claim-Safe g (name, none) s = ground arith
  mark_claim-Safe g (name, some c) s = grind (arith, may.marks g c)

  mark-Safe :
      (g : List Event) (claims : Dict (Option BucketClaim))
      → Safe P (λ g r. Unit) g (mark_all_bucket_claims_as_accessed claims)
  unfolding mark_all_bucket_claims_as_accessed
  mark-Safe g claims = Safe-bind P _ g (fold_map mark_claim ([], []) claims) _ (
      Safe-weaken P g (fold_map mark_claim ([], []) claims) (λ g s q. tt)
        (fold_map-All P mark_claim Always Done (λ x e g d. tt) mark_claim-Safe may.orders g ([], [])
          claims))

  get_bucket_of-Safe :
      (g : List Event) (e : String × Option BucketClaim) (s : Filling Bucket)
      → Safe P (λ g t. Always t → Always s × Done e g) g (get_bucket_of s e)
  unfolding get_bucket_of
  get_bucket_of-Safe g (name, none) s = ground arith
  get_bucket_of-Safe g (name, some c) s = grind (arith, may.buckets)

  check_count-Safe :
      (g : List Event) (claims : Dict (Option BucketClaim)) (r : Result (Dict (Option Bucket)))
      → Safe P (λ g r. Unit) g (check_count claims r)
  unfolding check_count
  check_count-Safe g claims (ok b) = tt
  check_count-Safe g claims (err e) = tt

  buckets-Safe :
      (g : List Event) (claims : Dict (Option BucketClaim))
      → Safe P (λ g r. Unit) g (get_buckets_for_claims claims)
  unfolding get_buckets_for_claims
  buckets-Safe g claims = Safe-bind P _ g (fold_map get_bucket_of ([], []) claims) _ (
      Safe-weaken P g (fold_map get_bucket_of ([], []) claims)
        (λ g s q. check_count-Safe g claims _)
        (fold_map-All P get_bucket_of Always Done (λ x e g d. tt) get_bucket_of-Safe may.orders g
          ([], []) claims))

  fetch-Safe : (h : List Event) (a : BucketAccess) → Safe P (Post Anything) h (fetch_claims a)
  unfolding fetch_claims
  fetch-Safe h a = lifted h (get_all_bucket_claims a.metadata.namespace a.spec.bucket_claims) a (
      Safe-weaken P h (get_all_bucket_claims a.metadata.namespace a.spec.bucket_claims)
        (λ g r q. tt)
        (get_all_bucket_claims-Safe P may.claims a.metadata.namespace h a.spec.bucket_claims))

  class-Safe : (h : List Event) (a : BucketAccess) → Safe P (Post Anything) h (get_class a)
  unfolding get_class
  class-Safe h a = grind (arith, may.classes)

  check_class-Safe :
      (class : BucketAccessClass) (h : List Event) (a : BucketAccess)
      → Safe P (Post Anything) h (check_class class a)
  unfolding check_class
  check_class-Safe class h a = ground arith

  blockers-Safe :
      (claims : Dict (Option BucketClaim)) (h : List Event) (a : BucketAccess)
      → Safe P (Post Anything) h (check_blockers claims a)
  unfolding check_blockers
  blockers-Safe claims h a = ground arith

  waitlist-Safe :
      (claims : Dict (Option BucketClaim)) (buckets : Dict (Option Bucket)) (h : List Event)
      (a : BucketAccess)
      → Safe P (Post Anything) h (check_waitlist claims buckets a)
  unfolding check_waitlist
  waitlist-Safe claims buckets h a = ground arith

  compile-Safe :
      (buckets : Dict (Option Bucket)) (h : List Event) (a : BucketAccess)
      → Safe P (Post Anything) h (compile buckets a)
  unfolding compile
  compile-Safe buckets h a = ground arith

  hand_over-Safe :
      (class : BucketAccessClass) (accessed : List AccessedBucket) (h : List Event)
      (a : BucketAccess)
      → Safe P (Post Anything) h (hand_over class accessed a)
  unfolding hand_over
  hand_over-Safe class accessed h a = grind (arith, may.writes)

  initialize_from-Safe :
      (claims : Dict (Option BucketClaim)) (h : List Event) (a : BucketAccess)
      → Safe P (Post Anything) h (initialize_from claims a)
  unfolding initialize_from
  initialize_from-Safe claims h a =
      Safe-seq P Anything Anything get_class _ h a (class-Safe h a) λ g class a k.
        Safe-seq P Anything Anything (check_class class) _ g a (check_class-Safe class g a)
          λ g u a k.
            Safe-seq P Anything Anything (lift (get_buckets_for_claims claims)) _ g a
              (lifted g (get_buckets_for_claims claims) a (buckets-Safe g claims))
              λ g buckets a k.
                Safe-seq P Anything Anything (check_blockers claims) _ g a
                  (blockers-Safe claims g a)
                  λ g u a k.
                    Safe-seq P Anything Anything (check_waitlist claims buckets) _ g a
                      (waitlist-Safe claims buckets g a)
                      λ g u a k.
                        Safe-seq P Anything Anything (compile buckets) _ g a
                          (compile-Safe buckets g a)
                          (λ g accessed a k. hand_over-Safe class accessed g a)

  once-Safe :
      (claims : Dict (Option BucketClaim)) (h : List Event) (a : BucketAccess)
      → Safe P (Post Anything) h (initialize_once claims a)
  unfolding initialize_once
  once-Safe claims h a = ground (arith, initialize_from-Safe claims h a)

  unique-Safe : (h : List Event) (a : BucketAccess) → Safe P (Post Anything) h (check_unique a)
  unfolding check_unique
  unique-Safe h a = ground arith

  pub initialize-Safe :
      (h : List Event) (a : BucketAccess)
      → Safe P (Post Anything) h (protect a)
      → Safe P (Post Anything) h (initialize a)
  unfolding initialize
  initialize-Safe h a first = Safe-seq P Anything Anything protect _ h a first λ g u a k.
      Safe-seq P Anything Anything check_unique _ g a (unique-Safe g a) λ g u a k.
        Safe-seq P Anything Anything fetch_claims _ g a (fetch-Safe g a) λ g claims a k.
          Safe-seq P Anything Anything (lift (mark_all_bucket_claims_as_accessed claims)) _ g a
            (lifted g (mark_all_bucket_claims_as_accessed claims) a (mark-Safe g claims))
            (λ g now a k. once-Safe now g a)
