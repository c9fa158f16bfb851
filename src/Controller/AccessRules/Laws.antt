-- ===== src/Controller/AccessRules/Laws.antt =====
-- What the decisions on a BucketAccess guarantee.
use cosi.Base.{
  String, true, false, Option, none, some, List, [], ◌∷◌, ◌≡◌, ◌≢◌, ◌↔◌, ◌⊎◌, refl, arith,
}
use cosi.Base.Dict.{Dict, lookup, has}
use cosi.Base.Lists.{All, contains, append-empty_iff}
use cosi.Errors.{ok}
use cosi.Api.Names.{auth_service_account, multiple_buckets}
use cosi.Api.Buckets.{Bucket}
use cosi.Api.Claims.{BucketClaim}
use cosi.Api.Accesses.{
  BucketAccessSpec, BucketClaimAccess, AccessedBucket, BucketAccessClassSpec,
  DisallowedBucketAccessModes, supports_multi_bucket_access,
}
use cosi.Handoff.{has_any_access_mode}
use cosi.Controller.AccessRules.{
  validate_claim_access_modes_against_class, access_mode_errors, is_multiple,
  validate_access_against_class, waiting_on_claim, waiting_on_bucket, waiting_on_bucket_claims,
  accessed, compile_step, compile_loop, compile_accessed_buckets, error_if,
  cannot_access_bucket_claims, blockers_of,
}

-- The reference asks for some access, and for none that is disallowed.
abbrev pub IsAllowed : DisallowedBucketAccessModes → BucketClaimAccess → Type 0
IsAllowed d ref =
    ((ref.access_modes.object_data ≢ "")
      ⊎ (ref.access_modes.object_metadata ≢ "")
      ⊎ (ref.access_modes.bucket_metadata ≢ ""))
    × (contains d.object_data ref.access_modes.object_data ≡ false)
    × (contains d.object_metadata ref.access_modes.object_metadata ≡ false)
    × (contains d.bucket_metadata ref.access_modes.bucket_metadata ≡ false)

modes_iff :
    (d : DisallowedBucketAccessModes) (ref : BucketClaimAccess)
    → (validate_claim_access_modes_against_class d ref ≡ []) ↔ IsAllowed d ref
unfolding validate_claim_access_modes_against_class error_if has_any_access_mode
modes_iff d ref = ground arith

access_mode_errors_iff :
    (d : DisallowedBucketAccessModes) (refs : List BucketClaimAccess)
    → (access_mode_errors d refs ≡ []) ↔ All (IsAllowed d) refs
unfolding access_mode_errors
access_mode_errors_iff d [] = ground arith
access_mode_errors_iff d (r ∷ rs) = ground (
  arith,
  modes_iff d r,
  access_mode_errors_iff d rs,
  append-empty_iff (validate_claim_access_modes_against_class d r) (access_mode_errors d rs),
)

-- An access is valid against its class exactly when it names a service account where the class
-- authenticates by one, references several claims only where the class supports that, and each of its
-- references sets some access mode and none that the class disallows.
pub validate_access_against_class_iff :
    (class : BucketAccessClassSpec) (access : BucketAccessSpec)
    → (validate_access_against_class class access ≡ ok tt) ↔ (
        ((class.authentication_type ≢ auth_service_account) ⊎ (access.service_account_name ≢ ""))
        × ((class.multi_bucket_access ≡ multiple_buckets)
            ⊎ (is_multiple access.bucket_claims ≡ false))
        × All (IsAllowed class.disallowed_bucket_access_modes) access.bucket_claims)
unfolding validate_access_against_class error_if supports_multi_bucket_access
validate_access_against_class_iff class access =
    ground (arith, access_mode_errors_iff class.disallowed_bucket_access_modes access.bucket_claims)

-- The claim, if it exists, is not being deleted, and has no protocols yet or this one.
abbrev pub Admits : String → String × Option BucketClaim → Type 0
Admits protocol (name, none) = Unit
Admits protocol (name, some claim) =
    (claim.metadata.deletion_timestamp ≡ none)
    × ((claim.status.protocols ≡ []) ⊎ (contains claim.status.protocols protocol ≡ true))

blockers_of_iff :
    (protocol name : String) (claim : BucketClaim)
    → (blockers_of protocol name claim ≡ []) ↔ Admits protocol (name, some claim)
unfolding blockers_of
blockers_of_iff protocol name claim = ground arith

-- Nothing blocks an access exactly when every claim that exists is not being deleted, and has no
-- protocols yet or the protocol of the access.
pub cannot_access_bucket_claims_iff :
    (claims : Dict (Option BucketClaim)) (spec : BucketAccessSpec)
    → (cannot_access_bucket_claims claims spec ≡ []) ↔ All (Admits spec.protocol) claims
unfolding cannot_access_bucket_claims
cannot_access_bucket_claims_iff [] spec = ground arith
cannot_access_bucket_claims_iff ((name, none) ∷ claims) spec =
    ground (arith, cannot_access_bucket_claims_iff claims spec)
cannot_access_bucket_claims_iff ((name, some claim) ∷ claims) spec = ground (
  arith,
  cannot_access_bucket_claims_iff claims spec,
  blockers_of_iff spec.protocol name claim,
  append-empty_iff (blockers_of spec.protocol name claim) (cannot_access_bucket_claims claims spec),
)

-- The claim of this name has a Bucket with an ID.
abbrev pub Provisioned : Dict (Option Bucket) → String → Type 0
Provisioned buckets name =
    (b : Bucket) × (lookup name buckets ≡ some (some b)) × (b.status.bucket_id ≢ "")

waiting_on_claim-Provisioned :
    (name : String) (claim : Option BucketClaim) (buckets : Dict (Option Bucket))
    → waiting_on_claim name claim buckets ≡ []
    → Provisioned buckets name
unfolding waiting_on_claim waiting_on_bucket
waiting_on_claim-Provisioned name claim buckets h = ground arith

waiting_on_bucket_claims-Provisioned :
    (claims : Dict (Option BucketClaim)) (buckets : Dict (Option Bucket)) (name : String)
    → waiting_on_bucket_claims claims buckets ≡ []
    → has name claims ≡ true
    → Provisioned buckets name
unfolding waiting_on_bucket_claims has
waiting_on_bucket_claims-Provisioned [] buckets name h k = ground arith
waiting_on_bucket_claims-Provisioned ((j, claim) ∷ claims) buckets name h k = ground (
  arith,
  waiting_on_claim-Provisioned j claim buckets,
  waiting_on_bucket_claims-Provisioned claims buckets name,
  append-empty_iff (waiting_on_claim j claim buckets) (waiting_on_bucket_claims claims buckets),
)

-- The entry is that of the claim's Bucket, and has an ID.
abbrev pub IsEntry : Dict (Option Bucket) → BucketClaimAccess → AccessedBucket → Type 0
IsEntry buckets ref a =
    (a.bucket_claim_name ≡ ref.bucket_claim_name)
    × ((b : Bucket) × (lookup ref.bucket_claim_name buckets ≡ some (some b))
        × (a.bucket_name ≡ b.metadata.name)
        × (a.bucket_id ≡ b.status.bucket_id)
        × (a.bucket_id ≢ ""))

-- The entries are those of the references, one by one.
abbrev pub AreCompiled :
    Dict (Option Bucket) → List BucketClaimAccess → List AccessedBucket → Type 0
AreCompiled buckets [] [] = Unit
AreCompiled buckets [] (a ∷ as') = ⊥
AreCompiled buckets (ref ∷ refs) [] = ⊥
AreCompiled buckets (ref ∷ refs) (a ∷ as') = IsEntry buckets ref a × AreCompiled buckets refs as'

compile_loop-AreCompiled :
    (refs : List BucketClaimAccess) (buckets : Dict (Option Bucket))
    → All (λ ref. Provisioned buckets (ref.bucket_claim_name)) refs
    → (out : List AccessedBucket) × (compile_loop refs buckets ≡ ok (out, []))
      × AreCompiled buckets refs out
unfolding compile_loop compile_step
compile_loop-AreCompiled [] buckets p = ([], refl, tt)
compile_loop-AreCompiled (ref ∷ refs) buckets p =
    let (out, eq, are) = compile_loop-AreCompiled refs buckets (p.1) in
    let (b, found, set) = p.0 in
    (accessed ref b ∷ out, ground arith, ((refl, (b, found, refl, refl, set)), are))

claims_Provisioned :
    (claims : Dict (Option BucketClaim)) (buckets : Dict (Option Bucket))
    (refs : List BucketClaimAccess)
    → waiting_on_bucket_claims claims buckets ≡ []
    → All (λ ref. has (ref.bucket_claim_name) claims ≡ true) refs
    → All (λ ref. Provisioned buckets (ref.bucket_claim_name)) refs
claims_Provisioned claims buckets [] h k = tt
claims_Provisioned claims buckets (ref ∷ refs) h k = (
  waiting_on_bucket_claims-Provisioned claims buckets (ref.bucket_claim_name) h (k.0),
  claims_Provisioned claims buckets refs h (k.1),
)

-- Where nothing is waited for, and each reference of an access has an entry in the map of claims, the
-- compilation of its Buckets succeeds: its list has one entry for each reference, in their order, with
-- the name and the ID of the Bucket of that claim, and no ID is empty.
pub compile_accessed_buckets-AreCompiled :
    (claims : Dict (Option BucketClaim)) (buckets : Dict (Option Bucket))
    (refs : List BucketClaimAccess)
    → waiting_on_bucket_claims claims buckets ≡ []
    → All (λ ref. has (ref.bucket_claim_name) claims ≡ true) refs
    → (out : List AccessedBucket) × (compile_accessed_buckets refs buckets ≡ ok out)
      × AreCompiled buckets refs out
unfolding compile_accessed_buckets
compile_accessed_buckets-AreCompiled claims buckets refs h k =
    let (out, eq, are) =
      compile_loop-AreCompiled refs buckets (claims_Provisioned claims buckets refs h k) in
    (out, ground arith, are)
