-- ===== src/Controller/AccessRules/References.antt =====
-- Which BucketClaims other BucketAccesses refer to.
use cosi.Base.{String, false, List, [], ◌∷◌, ◌≡◌, ◌≢◌, ◌↔◌, ◌⊎◌, arith}
use cosi.Base.Lists.{All}
use cosi.Api.Accesses.{BucketAccess, BucketClaimAccess}
use cosi.Controller.AccessRules.{refers_to, has_bucket_access_references_to}

refers_to_iff :
    (name : String) (refs : List BucketClaimAccess)
    → (refers_to name refs ≡ false) ↔ All (λ ref. ref.bucket_claim_name ≢ name) refs
unfolding refers_to
refers_to_iff name [] = ground arith
refers_to_iff name (r ∷ rs) = ground (arith, refers_to_iff name rs)

-- The access is the ignored one, or refers to other claims only.
abbrev pub Spares : String → String → BucketAccess → Type 0
Spares name ignored access =
    (access.metadata.name ≡ ignored)
    ⊎ All (λ ref. ref.bucket_claim_name ≢ name) access.spec.bucket_claims

-- A claim has no references left exactly when every access but the ignored one refers to other claims
-- only.
pub has_bucket_access_references_to_iff :
    (name : String) (accesses : List BucketAccess) (ignored : String)
    → (has_bucket_access_references_to name accesses ignored ≡ false)
      ↔ All (Spares name ignored) accesses
unfolding has_bucket_access_references_to
has_bucket_access_references_to_iff name [] ignored = ground arith
has_bucket_access_references_to_iff name (a ∷ as') ignored = ground (
  arith,
  has_bucket_access_references_to_iff name as' ignored,
  refers_to_iff name a.spec.bucket_claims,
)
