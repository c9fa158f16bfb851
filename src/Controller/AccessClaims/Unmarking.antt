-- ===== src/Controller/AccessClaims/Unmarking.antt =====
-- Which claims lose their mark when an access goes.
use cosi.Base.{String, true, false, Option, none, some, List, [], ◌≡◌, ◌⊎◌, arith}
use cosi.Base.Dict.{Dict}
use cosi.Base.Lists.{All}
use cosi.Errors.{Error, ok}
use cosi.Errors.Laws.{added, fail_if_any-ok}
use cosi.Api.Claims.{BucketClaim}
use cosi.Api.Accesses.{BucketAccess}
use cosi.Effects.{Call, done}
use cosi.Effects.Run.{Event}
use cosi.Effects.Safety.{Policy, Safe, Safe-bind, Safe-weaken}
use cosi.Effects.Loops.{fold_map}
use cosi.Effects.History.{Saw, Lasts, fold_map-Under}
use cosi.Controller.AccessRules.{has_bucket_access_references_to}
use cosi.Controller.AccessClaims.{
  is_marked, unmarked, unmark_claim, unmark_unaccessed_bucket_claims,
}

abbrev pub Unmarked : BucketClaim → Event → Type 0
Unmarked c (Call.update_bucket_claim w, done c') = w ≡ unmarked c
Unmarked c _ = ⊥

-- The claim does not exist, has no mark, is referred to by another access, or lost its mark.
abbrev pub IsSettled :
    List BucketAccess → String → String × Option BucketClaim → List Event → Type 0
IsSettled accesses ignored (name, none) h = Unit
IsSettled accesses ignored (name, some c) h =
    (is_marked c ≡ false)
    ⊎ (has_bucket_access_references_to c.metadata.name accesses ignored ≡ true)
    ⊎ Saw (Unmarked c) h

pub IsSettled-Lasts :
    (accesses : List BucketAccess) (ignored : String) (e : String × Option BucketClaim)
    → Lasts (IsSettled accesses ignored e)
IsSettled-Lasts accesses ignored (name, none) e h s = tt
IsSettled-Lasts accesses ignored (name, some c) e h s = ground arith

module _ (P : Policy) (accesses : List BucketAccess) (ignored : String)
    (orders : (g : List Event) → P g Call.order) (K : List Event → Type 0) (lasts : Lasts K)
    (may : (g : List Event) (c : BucketClaim)
      → K g
      → has_bucket_access_references_to c.metadata.name accesses ignored ≡ false
      → P g (Call.update_bucket_claim (unmarked c))) where
  unmark_claim-Safe :
      (g : List Event) (e : String × Option BucketClaim) (errs : List Error)
      → K g
      → Safe P
          (λ g t. (t ≡ []) → (errs ≡ []) × IsSettled accesses ignored e g)
          g
          (unmark_claim accesses ignored errs e)
  unfolding unmark_claim
  unmark_claim-Safe g (name, none) errs k = ground arith
  unmark_claim-Safe g (name, some c) errs k = grind (arith, may g c k, added errs)

  pub unmark_unaccessed_bucket_claims-Safe :
      (g : List Event) (claims : Dict (Option BucketClaim))
      → K g
      → Safe P
          (λ g r. (r ≡ ok tt) → All (λ e. IsSettled accesses ignored e g) claims)
          g
          (unmark_unaccessed_bucket_claims claims accesses ignored)
  unfolding unmark_unaccessed_bucket_claims
  unmark_unaccessed_bucket_claims-Safe g claims k =
      let loop = fold_map (unmark_claim accesses ignored) [] claims in
      Safe-bind P _ g loop _ (
        Safe-weaken P g loop (λ g errs settles r. (settles (fail_if_any-ok _ errs r)).1)
          (fold_map-Under P (unmark_claim accesses ignored) (λ errs. errs ≡ [])
            (IsSettled accesses ignored) (IsSettled-Lasts accesses ignored) K lasts
            unmark_claim-Safe orders g [] claims k))
