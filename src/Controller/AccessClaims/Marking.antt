-- ===== src/Controller/AccessClaims/Marking.antt =====
-- The claims of an access after they were marked, and the Buckets that were read for them.
use cosi.Base.{String, true, Option, none, some, List, [], ◌∷◌, ◌≡◌, ◌⊎◌, inl, inr, refl}
use mathlib.Core.Path.{subst}
use cosi.Base.Dict.{Dict}
use cosi.Base.Lists.{All}
use cosi.Errors.{ok}
use cosi.Errors.Laws.{added, settle-ok}
use cosi.Api.Claims.{BucketClaim}
use cosi.Effects.{Call, done, failed}
use cosi.Effects.Run.{Event}
use cosi.Effects.Safety.{Policy, Safe, Safe-bind, Safe-weaken, Safe-if}
use cosi.Effects.Loops.{rearrange, All-rearrange, fold_each-Safe, fold_map}
use cosi.Effects.History.{Saw, Lasts, All-Lasts}
use cosi.Controller.AccessClaims.{
  Filling, is_marked, marked, mark_claim, mark_all_bucket_claims_as_accessed,
}
use cosi.Controller.AccessClaims.Laws.{IsRead, AreRead, AreRead-Lasts}

abbrev pub MarkedTo : BucketClaim → BucketClaim → Event → Type 0
MarkedTo c c' (Call.update_bucket_claim w, done d) = (w ≡ marked c) × (d ≡ c')
MarkedTo c c' _ = ⊥

-- The claim does not exist, was read with the mark, or was marked after it was read.
abbrev pub IsProtected : String → String × Option BucketClaim → List Event → Type 0
IsProtected namespace (name, none) h = Saw (IsRead namespace (name, none)) h
IsProtected namespace (name, some c) h =
    (Saw (IsRead namespace (name, some c)) h × (is_marked c ≡ true))
    ⊎ ((c0 : BucketClaim) × Saw (IsRead namespace (name, some c0)) h × Saw (MarkedTo c0 c) h)

pub IsProtected-Lasts :
    (namespace : String) (e : String × Option BucketClaim) → Lasts (IsProtected namespace e)
IsProtected-Lasts namespace (name, none) e h p = inr p
IsProtected-Lasts namespace (name, some c) e h (inl (r, m)) = inl (inr r, m)
IsProtected-Lasts namespace (name, some c) e h (inr (c0, r, m)) = inr (c0, inr r, inr m)

abbrev pub AreProtected : String → Dict (Option BucketClaim) → List Event → Type 0
AreProtected namespace claims h = All (λ e. IsProtected namespace e h) claims

pub AreProtected-Lasts :
    (namespace : String) (claims : Dict (Option BucketClaim))
    → Lasts (AreProtected namespace claims)
AreProtected-Lasts namespace claims =
    All-Lasts (IsProtected namespace) claims (IsProtected-Lasts namespace)

abbrev pub Any : {A : Type 0} → A → Type 0
Any x = Unit

pub All-Any : {A : Type 0} (xs : List A) → All Any xs
All-Any [] = tt
All-Any (x ∷ xs) = (tt, All-Any xs)

module _ (P : Policy) (namespace : String) (orders : (g : List Event) → P g Call.order)
    (marks : (g : List Event) (c : BucketClaim) → P g (Call.update_bucket_claim (marked c))) where
  -- The claims still to come were read, and without an error those behind are protected.
  abbrev Going : List Event → Dict (Option BucketClaim) → Filling BucketClaim → Type 0
  Going g rest s = AreRead namespace rest g × ((s.0 ≡ []) → AreProtected namespace (s.1) g)

  mark_claim-Safe :
      (g : List Event) (e : String × Option BucketClaim) (rest : Dict (Option BucketClaim))
      (s : Filling BucketClaim)
      → Any e
      → Going g (e ∷ rest) s
      → Safe P (λ g t. Going g rest t) g (mark_claim s e)
  unfolding mark_claim
  mark_claim-Safe g (name, none) rest (errs, claims) u (read, behind) =
      (read.1, λ q. (read.0, behind q))
  mark_claim-Safe g (name, some c) rest (errs, claims) u (read, behind) =
      Safe-if P _ g (is_marked c) _ _ (λ m. (read.1, λ q. (inl (read.0, m), behind q)))
        λ m. (
          marks g c,
          elim [
            | done c' ↦ (
              AreRead-Lasts namespace rest _ g (read.1),
              λ q. (
                inr (c, inr (read.0), inl (refl, refl)),
                AreProtected-Lasts namespace claims _ g (behind q),
              ),
            )
            | failed k text ↦
                (AreRead-Lasts namespace rest _ g (read.1), λ q. absurd (added errs _ q))
          ],
        )

  pub mark_all_bucket_claims_as_accessed-Safe :
      (g : List Event) (claims : Dict (Option BucketClaim))
      → AreRead namespace claims g
      → Safe P
          (λ g r. (now : Dict (Option BucketClaim)) → (r ≡ ok now) → AreProtected namespace now g)
          g
          (mark_all_bucket_claims_as_accessed claims)
  unfolding mark_all_bucket_claims_as_accessed
  mark_all_bucket_claims_as_accessed-Safe g claims read =
      Safe-bind P _ g (fold_map mark_claim ([], []) claims) _ (
        Safe-weaken P g (fold_map mark_claim ([], []) claims)
          (λ g s going now r.
            let (none_left, same) = settle-ok _ (s.1) now (s.0) r in
            subst (λ m. AreProtected namespace m g) same (going.1 none_left))
          (
            orders g,
            λ choices.
                fold_each-Safe P mark_claim Any Going mark_claim-Safe _ (rearrange choices claims)
                  ([], []) (All-Any (rearrange choices claims))
                  (
                    (All-rearrange (λ e. Saw (IsRead namespace e) ((Call.order, choices) ∷ g))
                          choices claims).1
                        (AreRead-Lasts namespace claims (Call.order, choices) g read),
                    λ q. tt,
                  ),
          ))
