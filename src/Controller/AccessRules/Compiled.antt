-- ===== src/Controller/AccessRules/Compiled.antt =====
-- What it says of an access that nothing is waited for and that its Buckets were compiled.
use cosi.Base.{String, true, Option, none, some, List, [], ◌∷◌, ◌≡◌, ◌≢◌, arith}
use cosi.Base.Dict.{Dict}
use cosi.Base.Lists.{All, append-empty_iff}
use cosi.Errors.{ok}
use cosi.Api.Buckets.{Bucket}
use cosi.Api.Claims.{BucketClaim}
use cosi.Api.Accesses.{BucketClaimAccess, AccessedBucket}
use cosi.Controller.AccessRules.{
  waiting_on_claim, waiting_on_bucket, waiting_on_bucket_claims, compile_step, compile_loop,
  compile_accessed_buckets,
}
use cosi.Controller.AccessRules.Laws.{AreCompiled}

-- The claim exists, is bound and is ready.
abbrev pub IsProvisioned : String × Option BucketClaim → Type 0
IsProvisioned (name, none) = ⊥
IsProvisioned (name, some c) =
    (c.status.bound_bucket_name ≢ "") × (c.status.ready_to_use ≡ some true)

waiting_on_claim-IsProvisioned :
    (name : String) (claim : Option BucketClaim) (buckets : Dict (Option Bucket))
    → waiting_on_claim name claim buckets ≡ []
    → IsProvisioned (name, claim)
unfolding waiting_on_claim waiting_on_bucket
waiting_on_claim-IsProvisioned name none buckets h = ground arith
waiting_on_claim-IsProvisioned name (some c) buckets h = ground arith

pub waiting_on_bucket_claims-IsProvisioned :
    (claims : Dict (Option BucketClaim)) (buckets : Dict (Option Bucket))
    → waiting_on_bucket_claims claims buckets ≡ []
    → All IsProvisioned claims
unfolding waiting_on_bucket_claims
waiting_on_bucket_claims-IsProvisioned [] buckets h = tt
waiting_on_bucket_claims-IsProvisioned ((name, claim) ∷ claims) buckets h =
    let (here, rest) =
      (append-empty_iff (waiting_on_claim name claim buckets)
          (waiting_on_bucket_claims claims buckets)).0
        h in
    (
      waiting_on_claim-IsProvisioned name claim buckets here,
      waiting_on_bucket_claims-IsProvisioned claims buckets rest,
    )

compile_loop-IsSound :
    (refs : List BucketClaimAccess) (buckets : Dict (Option Bucket)) (out : List AccessedBucket)
    → compile_loop refs buckets ≡ ok (out, [])
    → AreCompiled buckets refs out
unfolding compile_loop compile_step
compile_loop-IsSound [] buckets [] h = tt
compile_loop-IsSound [] buckets (a ∷ as') h = ground arith
compile_loop-IsSound (ref ∷ refs) buckets [] h = ground arith
compile_loop-IsSound (ref ∷ refs) buckets (a ∷ as') h =
    ground (arith, compile_loop-IsSound refs buckets as')

pub compile_accessed_buckets-IsSound :
    (refs : List BucketClaimAccess) (buckets : Dict (Option Bucket)) (out : List AccessedBucket)
    → compile_accessed_buckets refs buckets ≡ ok out
    → AreCompiled buckets refs out
unfolding compile_accessed_buckets
compile_accessed_buckets-IsSound refs buckets out h =
    ground (arith, compile_loop-IsSound refs buckets out)
