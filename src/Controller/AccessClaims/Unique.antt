-- ===== src/Controller/AccessClaims/Unique.antt =====
-- When the references of an access are to different claims.
use cosi.Base.{
  String, ℕ, true, false, none, some, List, [], ◌∷◌, ◌≡◌, ◌≢◌, ◌↔◌, arith, refl, suc, Option,
}
use cosi.Base.Dict.{Dict, lookup, insert, has, has-insert}
use cosi.Base.Lists.{All}
use cosi.Errors.{ok}
use cosi.Api.Accesses.{BucketClaimAccess}
use cosi.Controller.AccessClaims.{
  counted, count_references, validate_all_bucket_claim_references_unique,
}

-- No two references are to the same claim.
abbrev pub AreUnique : List BucketClaimAccess → Type 0
AreUnique [] = Unit
AreUnique (ref ∷ refs) =
    All (λ s. s.bucket_claim_name ≢ ref.bucket_claim_name) refs × AreUnique refs

abbrev NotCounted : Dict ℕ → BucketClaimAccess → Type 0
NotCounted counts ref = has ref.bucket_claim_name counts ≡ false

NotCounted-insert :
    (name : String) (n : ℕ) (counts : Dict ℕ) (refs : List BucketClaimAccess)
    → All (NotCounted (insert name n counts)) refs
      ↔ (All (λ s. s.bucket_claim_name ≢ name) refs × All (NotCounted counts) refs)
NotCounted-insert name n counts [] = ground arith
NotCounted-insert name n counts (ref ∷ refs) =
    ground
      (arith, has-insert ref.bucket_claim_name name n counts, NotCounted-insert name n counts refs)

has-some : (k : String) (n : ℕ) (counts : Dict ℕ) → lookup k counts ≡ some n → has k counts ≡ true
unfolding lookup has
has-some k n [] h = ground arith
has-some k n ((j, m) ∷ counts) h = ground (arith, has-some k n counts)

has-none : (k : String) (counts : Dict ℕ) → lookup k counts ≡ none → has k counts ≡ false
unfolding lookup has
has-none k [] h = ground arith
has-none k ((j, m) ∷ counts) h = ground (arith, has-none k counts)

repeated_stays :
    (refs : List BucketClaimAccess) (counts : Dict ℕ)
    → (count_references refs (counts, true)).1 ≡ true
unfolding count_references
repeated_stays [] counts = ground arith
repeated_stays (ref ∷ refs) counts =
    elim (lookup ref.bucket_claim_name counts)
      as (λ r. (count_references refs (counted ref.bucket_claim_name (counts, true) r)).1 ≡ true) [
        | none ↦ repeated_stays refs (insert ref.bucket_claim_name 1 counts)
        | some n ↦ repeated_stays refs (insert ref.bucket_claim_name (suc n) counts)
      ]

-- One more reference, with how often it was counted.
counted_iff :
    (name : String) (refs : List BucketClaimAccess) (counts : Dict ℕ) (r : Option ℕ)
    → lookup name counts ≡ r
    → ((count_references refs (insert name 1 counts, false)).1 ≡ false)
      ↔ (AreUnique refs × All (NotCounted (insert name 1 counts)) refs)
    → ((count_references refs (counted name (counts, false) r)).1 ≡ false) ↔ (
        (All (λ s. s.bucket_claim_name ≢ name) refs × AreUnique refs)
        × ((has name counts ≡ false) × All (NotCounted counts) refs))
counted_iff name refs counts none eq h =
    ground (arith, has-none name counts eq, NotCounted-insert name 1 counts refs)
counted_iff name refs counts (some n) eq h =
    ground (arith, has-some name n counts eq, repeated_stays refs (insert name (suc n) counts))

count_references_iff :
    (refs : List BucketClaimAccess) (counts : Dict ℕ)
    → ((count_references refs (counts, false)).1 ≡ false)
      ↔ (AreUnique refs × All (NotCounted counts) refs)
unfolding count_references
count_references_iff [] counts = ground arith
count_references_iff (ref ∷ refs) counts =
    counted_iff ref.bucket_claim_name refs counts (lookup ref.bucket_claim_name counts) refl
      (count_references_iff refs (insert ref.bucket_claim_name 1 counts))

none_counted : (refs : List BucketClaimAccess) → All (NotCounted []) refs
unfolding has
none_counted [] = tt
none_counted (ref ∷ refs) = (refl, none_counted refs)

-- The references are accepted exactly when no two are to the same claim.
pub validate_all_bucket_claim_references_unique_iff :
    (refs : List BucketClaimAccess)
    → (validate_all_bucket_claim_references_unique refs ≡ ok tt) ↔ AreUnique refs
unfolding validate_all_bucket_claim_references_unique
validate_all_bucket_claim_references_unique_iff refs =
    ground (arith, count_references_iff refs [], none_counted refs)
