-- ===== src/Controller/BucketAccessReconciler/Handing.antt =====
-- What it takes to hand an access to the sidecar.
use mathlib.Core.Path.{subst}
use cosi.Base.{String, Option, none, some, List, [], ◌∷◌, ◌≡◌, ◌≢◌, ◌⊎◌}
use cosi.Base.Dict.{Dict}
use cosi.Base.Lists.{All}
use cosi.Errors.{ok}
use cosi.Api.Buckets.{Bucket}
use cosi.Api.Claims.{BucketClaim}
use cosi.Api.Accesses.{BucketAccess, BucketAccessClass, BucketClaimAccess, AccessedBucket}
use cosi.Effects.{Call, done}
use cosi.Effects.Run.{Event}
use cosi.Effects.Safety.{Policy}
use cosi.Effects.History.{Saw}
use cosi.Controller.ClaimProvision.{global}
use cosi.Controller.AccessRules.{validate_access_against_class}
use cosi.Controller.AccessRules.Laws.{Admits, IsEntry, AreCompiled}
use cosi.Controller.AccessRules.Compiled.{IsProvisioned}
use cosi.Controller.AccessClaims.Laws.{All-lookup}
use cosi.Controller.AccessClaims.Marking.{IsProtected, AreProtected}
use cosi.Controller.AccessClaims.Reading.{BucketRead, IsIn-All, IsBucketOf, AreBucketsOf}
use cosi.Controller.BucketAccessReconciler.Compose.{IsShown}
use cosi.Controller.BucketAccessReconciler.{handed}

abbrev pub ClassRead : String → BucketAccessClass → Event → Type 0
ClassRead name class (Call.get_bucket_access_class n, done d) = (n ≡ global name) × (d ≡ class)
ClassRead name class _ = ⊥

-- The entry is that of a Bucket which was read for the claim of the reference, and the claim is marked,
-- is not being deleted, has no protocols or this one, is bound and is ready.
abbrev pub IsHanded : List Event → String → String → BucketClaimAccess → AccessedBucket → Type 0
IsHanded h namespace protocol ref ab =
    (c : BucketClaim) × (b : Bucket) × IsProtected namespace (ref.bucket_claim_name, some c) h
    × Admits protocol (ref.bucket_claim_name, some c)
    × IsProvisioned (ref.bucket_claim_name, some c)
    × Saw (BucketRead c.status.bound_bucket_name b) h
    × (ab.bucket_claim_name ≡ ref.bucket_claim_name)
    × (ab.bucket_name ≡ b.metadata.name)
    × (ab.bucket_id ≡ b.status.bucket_id)
    × (ab.bucket_id ≢ "")

abbrev pub AreHanded :
    List Event → String → String → List BucketClaimAccess → List AccessedBucket → Type 0
AreHanded h namespace protocol [] [] = Unit
AreHanded h namespace protocol [] (ab ∷ abs) = ⊥
AreHanded h namespace protocol (ref ∷ refs) [] = ⊥
AreHanded h namespace protocol (ref ∷ refs) (ab ∷ abs) =
    IsHanded h namespace protocol ref ab × AreHanded h namespace protocol refs abs

abbrev pub IsHandedOver : List Event → BucketAccess → Type 0
IsHandedOver h w =
    (a : BucketAccess) × (class : BucketAccessClass) × (accessed : List AccessedBucket) × Saw
      (IsShown a) h
    × (a.status.accessed_buckets ≡ [])
    × Saw (ClassRead a.spec.bucket_access_class_name class) h
    × (validate_access_against_class class.spec a.spec ≡ ok tt)
    × AreHanded h a.metadata.namespace a.spec.protocol a.spec.bucket_claims accessed
    × (w ≡ handed class accessed a)

abbrev pub HandsOver : Policy
HandsOver h (Call.update_bucket_access_status w) = (w.status.error ≢ none) ⊎ IsHandedOver h w
HandsOver h _ = Unit

-- What is known of the claims and of the Buckets before the compilation.
abbrev pub Known :
    String → String → Dict (Option BucketClaim) → Dict (Option Bucket) → List Event → Type 0
Known namespace protocol claims buckets h =
    AreProtected namespace claims h
    × All (Admits protocol) claims
    × All IsProvisioned claims
    × AreBucketsOf claims buckets h

pub entry-IsHanded :
    (h : List Event) (namespace protocol : String) (claims : Dict (Option BucketClaim))
    (buckets : Dict (Option Bucket)) (ref : BucketClaimAccess) (ab : AccessedBucket)
    → Known namespace protocol claims buckets h
    → IsEntry buckets ref ab
    → IsHanded h namespace protocol ref ab
entry-IsHanded h namespace protocol claims buckets ref ab (protected, admits, ready, are)
      (same_claim, (b, found, name, id, set)) =
    let k = ref.bucket_claim_name in
    let (j, same, (c, is_in, read)) =
      All-lookup (λ e. IsBucketOf claims e h) k (some b) buckets found are in
    (
      c,
      b,
      subst (λ n. IsProtected namespace (n, some c) h) same
          (IsIn-All (λ e. IsProtected namespace e h) (j, some c) claims is_in protected),
      IsIn-All (Admits protocol) (j, some c) claims is_in admits,
      IsIn-All IsProvisioned (j, some c) claims is_in ready,
      read,
      same_claim,
      name,
      id,
      set,
    )

pub compiled-AreHanded :
    (h : List Event) (namespace protocol : String) (claims : Dict (Option BucketClaim))
    (buckets : Dict (Option Bucket)) (refs : List BucketClaimAccess) (abs : List AccessedBucket)
    → Known namespace protocol claims buckets h
    → AreCompiled buckets refs abs
    → AreHanded h namespace protocol refs abs
compiled-AreHanded h namespace protocol claims buckets [] [] known are = tt
compiled-AreHanded h namespace protocol claims buckets [] (ab ∷ abs) known are = are
compiled-AreHanded h namespace protocol claims buckets (ref ∷ refs) [] known are = are
compiled-AreHanded h namespace protocol claims buckets (ref ∷ refs) (ab ∷ abs) known are = (
  entry-IsHanded h namespace protocol claims buckets ref ab known (are.0),
  compiled-AreHanded h namespace protocol claims buckets refs abs known (are.1),
)
