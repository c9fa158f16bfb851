-- ===== src/Controller/BucketAccessReconciler/HandingOver.antt =====
-- An access is handed to the sidecar only with the Buckets of claims that are ready and marked.
use cosi.Base.{String, Option, List, [], ◌∷◌, ◌≡◌, inl, inr, refl, arith}
use cosi.Base.Dict.{Dict}
use cosi.Base.Lists.{All}
use cosi.Errors.{Error, Result, ok, err}
use cosi.Api.Meta.{NamespacedName}
use cosi.Api.Buckets.{Bucket}
use cosi.Api.Claims.{BucketClaim}
use cosi.Api.Accesses.{BucketAccess, BucketAccessClass}
use cosi.Effects.{Call, done, lift, ◌>>=◌, ◌>>◌}
use cosi.Effects.Run.{Event}
use cosi.Effects.Safety.{Post, Safe, Safe-weaken, Safe-seq}
use cosi.Effects.History.{Saw, Saw-Lasts, Lasts}
use cosi.Effects.Frame.{lift-Safe, keep-seq}
use cosi.Controller.AccessRules.{validate_access_against_class}
use cosi.Controller.AccessRules.Laws.{Admits, AreCompiled}
use cosi.Controller.AccessRules.Compiled.{IsProvisioned}
use cosi.Controller.AccessClaims.{mark_all_bucket_claims_as_accessed, get_buckets_for_claims}
use cosi.Controller.AccessClaims.Laws.{AreRead}
use cosi.Controller.AccessClaims.Marking.{
  AreProtected, AreProtected-Lasts, mark_all_bucket_claims_as_accessed-Safe,
}
use cosi.Controller.AccessClaims.Reading.{
  AreBucketsOf, AreBucketsOf-Lasts, get_buckets_for_claims-Safe,
}
use cosi.Controller.AccessClaims.{unmark_unaccessed_bucket_claims}
use cosi.Controller.AccessClaims.Unmarking.{unmark_unaccessed_bucket_claims-Safe}
use cosi.Controller.BucketAccessReconciler.Compose.{Anything, IsShown, reconcile_request-Safe}
use cosi.Controller.BucketAccessReconciler.{
  protect, check_unique, fetch_claims, get_class, check_class, check_blockers, check_waitlist,
  compile, hand_over, initialize_from, initialize_once, initialize, list_accesses, unmark,
  unprotect, reconcile_delete, reconcile, report, reconcile_request,
}
use cosi.Controller.BucketAccessReconciler.HandingSteps.{
  blockers-Safe, check_class-Safe, check_unique-Safe, compile-Safe, fetch_claims-Safe,
  get_class-Safe, hand_over-Safe, protect-Safe, waitlist-Safe,
}
use cosi.Controller.BucketAccessReconciler.Handing.{ClassRead, HandsOver, compiled-AreHanded}

-- The access, and its claims after they were marked.
abbrev Begun : BucketAccess → Dict (Option BucketClaim) → List Event → Type 0
Begun a claims h = Saw (IsShown a) h × AreProtected a.metadata.namespace claims h

Begun-Lasts : (a : BucketAccess) (claims : Dict (Option BucketClaim)) → Lasts (Begun a claims)
Begun-Lasts a claims e h (shown, protected) =
    (inr shown, AreProtected-Lasts a.metadata.namespace claims e h protected)

module _ (a : BucketAccess) (class : BucketAccessClass) (claims : Dict (Option BucketClaim)) where
  -- The same, with the class and the Buckets.
  abbrev Gathered : Dict (Option Bucket) → List Event → Type 0
  Gathered buckets h =
      Begun a claims h
      × Saw (ClassRead a.spec.bucket_access_class_name class) h
      × AreBucketsOf claims buckets h

  Gathered-Lasts : (buckets : Dict (Option Bucket)) → Lasts (Gathered buckets)
  Gathered-Lasts buckets e h (begun, read, are) =
      (Begun-Lasts a claims e h begun, inr read, AreBucketsOf-Lasts claims buckets e h are)

  decide-Safe :
      (buckets : Dict (Option Bucket)) (h : List Event)
      → a.status.accessed_buckets ≡ []
      → validate_access_against_class class.spec a.spec ≡ ok tt
      → Gathered buckets h
      → Safe HandsOver (Post Anything) h (
          (check_blockers claims
              >> (check_waitlist claims buckets >> (compile buckets >>= hand_over class)))
            a)
  decide-Safe buckets h blank valid k =
      keep-seq HandsOver (Gathered buckets) (Gathered-Lasts buckets)
        (λ g u. All (Admits a.spec.protocol) claims) Anything (check_blockers claims) _ h a k
        (blockers-Safe claims h a)
        λ g u k admits.
          keep-seq HandsOver (Gathered buckets) (Gathered-Lasts buckets)
            (λ g u. All IsProvisioned claims) Anything (check_waitlist claims buckets) _ g a k
            (waitlist-Safe claims buckets g a)
            λ g u k ready.
              keep-seq HandsOver (Gathered buckets) (Gathered-Lasts buckets)
                (λ g accessed. AreCompiled buckets a.spec.bucket_claims accessed) Anything
                (compile buckets) (hand_over class) g a k (compile-Safe buckets g a)
                λ g accessed (begun, read, are) compiled. hand_over-Safe class accessed g a (
                  a,
                  class,
                  accessed,
                  begun.0,
                  blank,
                  read,
                  valid,
                  compiled-AreHanded g a.metadata.namespace a.spec.protocol claims buckets
                      a.spec.bucket_claims accessed (begun.1, admits, ready, are) compiled,
                  refl,
                )

initialize_from-Safe :
    (claims : Dict (Option BucketClaim)) (h : List Event) (a : BucketAccess)
    → a.status.accessed_buckets ≡ []
    → Begun a claims h
    → Safe HandsOver (Post Anything) h (initialize_from claims a)
unfolding initialize_from
initialize_from-Safe claims h a blank begun =
    keep-seq HandsOver (Begun a claims) (Begun-Lasts a claims)
      (λ g class. Saw (ClassRead a.spec.bucket_access_class_name class) g) Anything get_class _ h a
      begun (get_class-Safe h a)
      λ g class begun read.
        keep-seq HandsOver
          (λ g. Begun a claims g × Saw (ClassRead a.spec.bucket_access_class_name class) g)
          (λ e g k. (Begun-Lasts a claims e g (k.0), inr (k.1)))
          (λ g u. validate_access_against_class class.spec a.spec ≡ ok tt) Anything
          (check_class class) _ g a (begun, read) (check_class-Safe class g a)
          λ g u k valid.
            keep-seq HandsOver
              (λ g. Begun a claims g × Saw (ClassRead a.spec.bucket_access_class_name class) g)
              (λ e g k. (Begun-Lasts a claims e g (k.0), inr (k.1)))
              (λ g buckets. AreBucketsOf claims buckets g) Anything
              (lift (get_buckets_for_claims claims)) _ g a k
              (lift-Safe HandsOver (λ g buckets. AreBucketsOf claims buckets g) g
                (get_buckets_for_claims claims) a
                (get_buckets_for_claims-Safe HandsOver (λ g. tt) (λ g n. tt) claims g))
              (λ g buckets k are. decide-Safe a class claims buckets g blank valid (k.0, k.1, are))

once-Safe :
    (claims : Dict (Option BucketClaim)) (h : List Event) (a : BucketAccess)
    → Begun a claims h
    → Safe HandsOver (Post Anything) h (initialize_once claims a)
unfolding initialize_once
once-Safe claims h a begun =
    ground (
      arith,
      λ (blank : a.status.accessed_buckets ≡ []). initialize_from-Safe claims h a blank begun,
    )

initialize-Safe :
    (h : List Event) (a : BucketAccess)
    → Saw (IsShown a) h
    → Safe HandsOver (Post Anything) h (initialize a)
unfolding initialize
initialize-Safe h a shown =
    Safe-seq HandsOver (λ g u a'. Saw (IsShown a') g) Anything protect _ h a
      (protect-Safe h a shown)
      λ g u a shown.
        keep-seq HandsOver (Saw (IsShown a)) (Saw-Lasts (IsShown a)) (λ g u. Unit) Anything
          check_unique _ g a shown (check_unique-Safe g a)
          λ g u shown k.
            keep-seq HandsOver (Saw (IsShown a)) (Saw-Lasts (IsShown a))
              (λ g claims. AreRead a.metadata.namespace claims g) Anything fetch_claims _ g a shown
              (fetch_claims-Safe g a)
              λ g claims shown read.
                keep-seq HandsOver (Saw (IsShown a)) (Saw-Lasts (IsShown a))
                  (λ g now. AreProtected a.metadata.namespace now g) Anything
                  (lift (mark_all_bucket_claims_as_accessed claims)) initialize_once g a shown
                  (lift-Safe HandsOver (λ g now. AreProtected a.metadata.namespace now g) g
                    (mark_all_bucket_claims_as_accessed claims) a
                    (mark_all_bucket_claims_as_accessed-Safe HandsOver a.metadata.namespace
                      (λ g. tt) (λ g c. tt) g claims read))
                  (λ g now shown protected. once-Safe now g a (shown, protected))

list_accesses-Safe :
    (h : List Event) (a : BucketAccess) → Safe HandsOver (Post Anything) h (list_accesses a)
unfolding list_accesses
list_accesses-Safe h a = ground arith

unmark-Safe :
    (claims : Dict (Option BucketClaim)) (accesses : List BucketAccess) (h : List Event)
    (a : BucketAccess)
    → Safe HandsOver (Post (λ g u a'. (a' ≡ a) × Unit {0})) h (unmark claims accesses a)
unfolding unmark
unmark-Safe claims accesses h a =
    lift-Safe HandsOver (λ g u. Unit) h
      (unmark_unaccessed_bucket_claims claims accesses a.metadata.name) a
      (Safe-weaken HandsOver h (unmark_unaccessed_bucket_claims claims accesses a.metadata.name)
        (λ g r q u eq. tt)
        (unmark_unaccessed_bucket_claims-Safe HandsOver accesses a.metadata.name (λ g. tt)
          (λ g. Unit) (λ e g k. tt) (λ g c k spared. tt) h claims tt))

unprotect-Safe :
    (h : List Event) (a : BucketAccess) → Safe HandsOver (Post Anything) h (unprotect a)
unfolding unprotect
unprotect-Safe h a = ground arith

reconcile_delete-Safe :
    (h : List Event) (a : BucketAccess) → Safe HandsOver (Post Anything) h (reconcile_delete a)
unfolding reconcile_delete
reconcile_delete-Safe h a =
    keep-seq HandsOver (λ g. Unit) (λ e g k. tt) (λ g claims. AreRead a.metadata.namespace claims g)
      Anything fetch_claims _ h a tt (fetch_claims-Safe h a)
      λ g claims k read.
        Safe-seq HandsOver Anything Anything list_accesses _ g a (list_accesses-Safe g a)
          λ g accesses a k.
            keep-seq HandsOver (λ g. Unit) (λ e g k. tt) (λ g u. Unit) Anything
              (unmark claims accesses) (λ u. unprotect) g a tt (unmark-Safe claims accesses g a)
              (λ g u k q. unprotect-Safe g a)

reconcile-Safe :
    (h : List Event) (a : BucketAccess)
    → Saw (IsShown a) h
    → Safe HandsOver (Post Anything) h (reconcile a)
unfolding reconcile
reconcile-Safe h a shown = ground (arith, reconcile_delete-Safe h a, initialize-Safe h a shown)

module _ (render : Error → String) where
  report-Safe :
      (h : List Event) (p : Result (Unit {0}) × BucketAccess)
      → Safe HandsOver (λ g o. Unit) h (report render p)
  unfolding report
  report-Safe h (err e, a) = ground arith
  report-Safe h (ok u, a) = tt

  -- In every run of the controller's `Reconcile` of a BucketAccess, whatever the API server answers: a
  -- status without an error is written only to hand an access over which the server showed without
  -- accessed Buckets; the driver, the authentication type and the parameters are those of the class of
  -- its name, which was read and admits its spec; and there is one accessed Bucket for each reference,
  -- in their order, with the name and the non-empty ID of a Bucket that was read as the one bound to
  -- the claim of the reference, and this claim was read with the mark or marked after it was read, is
  -- not being deleted, has no protocols or that of the access, and is ready.
  pub reconcile_request-HandsOver :
      (req : NamespacedName) → Safe HandsOver (λ g o. Unit) [] (reconcile_request render req)
  reconcile_request-HandsOver req =
      reconcile_request-Safe HandsOver render req tt
        (λ a m. reconcile-Safe ((Call.get_bucket_access req, done a) ∷ []) a (inl refl)) report-Safe
