-- ===== src/Controller/BucketAccessReconciler/HandingSteps.antt =====
-- What each step of an initialization finds out, under the policy of a handoff.
use cosi.Controller.BucketAccessReconciler.Handing.{ClassRead, HandsOver, IsHandedOver}
use cosi.Base.{Option, List, ◌≡◌, inl, inr, refl, arith}
use cosi.Base.Dict.{Dict}
use cosi.Base.Lists.{All}
use cosi.Errors.{ok}
use cosi.Api.Buckets.{Bucket}
use cosi.Api.Claims.{BucketClaim}
use cosi.Api.Accesses.{BucketAccess, BucketAccessClass, AccessedBucket}
use cosi.Effects.{done, failed}
use cosi.Effects.Run.{Event}
use cosi.Effects.Safety.{Post, Safe, Safe-weaken}
use cosi.Effects.History.{Saw}
use cosi.Effects.Frame.{lift-Safe}
use cosi.Controller.AccessRules.{validate_access_against_class}
use cosi.Controller.AccessRules.Laws.{Admits, cannot_access_bucket_claims_iff, AreCompiled}
use cosi.Controller.AccessRules.Compiled.{
  IsProvisioned, waiting_on_bucket_claims-IsProvisioned, compile_accessed_buckets-IsSound,
}
use cosi.Controller.AccessClaims.{get_all_bucket_claims}
use cosi.Controller.AccessClaims.Laws.{AreRead, get_all_bucket_claims-Safe}
use cosi.Controller.BucketAccessReconciler.Compose.{Anything, IsShown}
use cosi.Controller.BucketAccessReconciler.{
  protect, check_unique, fetch_claims, get_class, check_class, check_blockers, check_waitlist,
  compile, handed, hand_over,
}

pub protect-Safe :
    (h : List Event) (a : BucketAccess)
    → Saw (IsShown a) h
    → Safe HandsOver (Post (λ g u a'. Saw (IsShown a') g)) h (protect a)
unfolding protect
protect-Safe h a shown = ground arith

pub check_unique-Safe :
    (h : List Event) (a : BucketAccess)
    → Safe HandsOver (Post (λ g u a'. (a' ≡ a) × Unit {0})) h (check_unique a)
unfolding check_unique
check_unique-Safe h a = ground arith

pub fetch_claims-Safe :
    (h : List Event) (a : BucketAccess)
    → Safe HandsOver
        (Post (λ g claims a'. (a' ≡ a) × AreRead a.metadata.namespace claims g))
        h
        (fetch_claims a)
unfolding fetch_claims
fetch_claims-Safe h a =
    lift-Safe HandsOver (λ g claims. AreRead a.metadata.namespace claims g) h
      (get_all_bucket_claims a.metadata.namespace a.spec.bucket_claims) a
      (Safe-weaken HandsOver h (get_all_bucket_claims a.metadata.namespace a.spec.bucket_claims)
        (λ g r q claims eq. (q claims eq).0)
        (get_all_bucket_claims-Safe HandsOver (λ g n. tt) a.metadata.namespace h
          a.spec.bucket_claims))

pub get_class-Safe :
    (h : List Event) (a : BucketAccess)
    → Safe HandsOver
        (Post (λ g class a'. (a' ≡ a) × Saw (ClassRead a.spec.bucket_access_class_name class) g))
        h
        (get_class a)
unfolding get_class
get_class-Safe h a = (tt, elim [ done c ↦ (refl, inl (refl, refl)) | failed k text ↦ tt ])

pub check_class-Safe :
    (class : BucketAccessClass) (h : List Event) (a : BucketAccess)
    → Safe HandsOver
        (Post (λ g u a'. (a' ≡ a) × (validate_access_against_class class.spec a.spec ≡ ok tt)))
        h
        (check_class class a)
unfolding check_class
check_class-Safe class h a = ground arith

pub blockers-Safe :
    (claims : Dict (Option BucketClaim)) (h : List Event) (a : BucketAccess)
    → Safe HandsOver
        (Post (λ g u a'. (a' ≡ a) × All (Admits a.spec.protocol) claims))
        h
        (check_blockers claims a)
unfolding check_blockers
blockers-Safe claims h a = ground (arith, cannot_access_bucket_claims_iff claims a.spec)

pub waitlist-Safe :
    (claims : Dict (Option BucketClaim)) (buckets : Dict (Option Bucket)) (h : List Event)
    (a : BucketAccess)
    → Safe HandsOver
        (Post (λ g u a'. (a' ≡ a) × All IsProvisioned claims))
        h
        (check_waitlist claims buckets a)
unfolding check_waitlist
waitlist-Safe claims buckets h a =
    ground (arith, waiting_on_bucket_claims-IsProvisioned claims buckets)

pub compile-Safe :
    (buckets : Dict (Option Bucket)) (h : List Event) (a : BucketAccess)
    → Safe HandsOver
        (Post (λ g accessed a'. (a' ≡ a) × AreCompiled buckets a.spec.bucket_claims accessed))
        h
        (compile buckets a)
unfolding compile
compile-Safe buckets h a =
    grind (arith, compile_accessed_buckets-IsSound a.spec.bucket_claims buckets)

pub hand_over-Safe :
    (class : BucketAccessClass) (accessed : List AccessedBucket) (h : List Event) (a : BucketAccess)
    → IsHandedOver h (handed class accessed a)
    → Safe HandsOver (Post Anything) h (hand_over class accessed a)
unfolding hand_over
hand_over-Safe class accessed h a may = (inr may, elim [ done b ↦ tt | failed k text ↦ tt ])
