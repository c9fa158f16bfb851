-- ===== src/Controller/AccessClaims/Reading.antt =====
-- The Buckets that were read for the claims of an access.
use cosi.Base.{
  String, Option, none, some, List, [], ◌∷◌, ◌≡◌, ◌⊎◌, inl, inr, refl, sym, ◌==◌, arith,
}
use mathlib.Core.Path.{subst}
use cosi.Base.Dict.{Dict}
use cosi.Base.Lists.{All}
use cosi.Errors.{not_found, already_exists, other_reason, ok, settle}
use cosi.Api.Meta.{NamespacedName}
use cosi.Api.Buckets.{Bucket}
use cosi.Api.Claims.{BucketClaim}
use cosi.Effects.{Call, done, failed}
use cosi.Effects.Run.{Event}
use cosi.Effects.Safety.{Policy, Safe, Safe-bind, Safe-weaken, Safe-if}
use cosi.Effects.Loops.{rearrange, All-rearrange, fold_each-Safe, fold_map}
use cosi.Effects.History.{Saw, Lasts, All-Lasts}
use cosi.Controller.ClaimProvision.{global}
use cosi.Controller.AccessClaims.{Filling, get_bucket_of, check_count, get_buckets_for_claims}

abbrev pub BucketRead : String → Bucket → Event → Type 0
BucketRead bound b (Call.get_bucket n, done b') = (n ≡ global bound) × (b' ≡ b)
BucketRead bound b _ = ⊥

-- The entry is one of the list.
abbrev pub IsIn : {A : Type 0} → A → List A → Type 0
IsIn x [] = ⊥
IsIn x (y ∷ ys) = (x ≡ y) ⊎ IsIn x ys

All-IsIn : {A : Type 0} (P : A → Type 0) (xs : List A) → ((x : A) → IsIn x xs → P x) → All P xs
All-IsIn P [] k = tt
All-IsIn P (x ∷ xs) k = (k x (inl refl), All-IsIn P xs (λ y i. k y (inr i)))

pub IsIn-All : {A : Type 0} (P : A → Type 0) (x : A) (xs : List A) → IsIn x xs → All P xs → P x
IsIn-All P x [] i a = absurd i
IsIn-All P x (y ∷ ys) (inl q) a = subst P (sym q) (a.0)
IsIn-All P x (y ∷ ys) (inr i) a = IsIn-All P x ys i (a.1)

-- The Bucket is the one that was read for the claim of this name.
abbrev pub IsBucketOf : Dict (Option BucketClaim) → String × Option Bucket → List Event → Type 0
IsBucketOf claims (name, none) h = Unit
IsBucketOf claims (name, some b) h =
    (c : BucketClaim) × IsIn (name, some c) claims × Saw (BucketRead c.status.bound_bucket_name b) h

pub IsBucketOf-Lasts :
    (claims : Dict (Option BucketClaim)) (e : String × Option Bucket) → Lasts (IsBucketOf claims e)
IsBucketOf-Lasts claims (name, none) e h p = tt
IsBucketOf-Lasts claims (name, some b) e h (c, i, s) = (c, i, inr s)

abbrev pub AreBucketsOf : Dict (Option BucketClaim) → Dict (Option Bucket) → List Event → Type 0
AreBucketsOf claims buckets h = All (λ e. IsBucketOf claims e h) buckets

pub AreBucketsOf-Lasts :
    (claims : Dict (Option BucketClaim)) (buckets : Dict (Option Bucket))
    → Lasts (AreBucketsOf claims buckets)
AreBucketsOf-Lasts claims buckets = All-Lasts (IsBucketOf claims) buckets (IsBucketOf-Lasts claims)

module _ (P : Policy) (orders : (g : List Event) → P g Call.order)
    (reads : (g : List Event) (n : NamespacedName) → P g (Call.get_bucket n))
    (claims : Dict (Option BucketClaim)) where
  abbrev Going : List Event → Dict (Option BucketClaim) → Filling Bucket → Type 0
  Going g rest s = AreBucketsOf claims (s.1) g

  get_bucket_of-Safe :
      (g : List Event) (e : String × Option BucketClaim) (rest : Dict (Option BucketClaim))
      (s : Filling Bucket)
      → IsIn e claims
      → Going g (e ∷ rest) s
      → Safe P (λ g t. Going g rest t) g (get_bucket_of s e)
  unfolding get_bucket_of
  get_bucket_of-Safe g (name, none) rest (errs, buckets) i behind = (tt, behind)
  get_bucket_of-Safe g (name, some c) rest (errs, buckets) i behind =
      Safe-if P _ g (c.status.bound_bucket_name == "") _ _ (λ m. (tt, behind))
        λ m. (
          reads g _,
          elim [
            | done b ↦ ((c, i, inl (refl, refl)), AreBucketsOf-Lasts claims buckets _ g behind)
            | failed not_found text ↦ AreBucketsOf-Lasts claims buckets _ g behind
            | failed already_exists text ↦ AreBucketsOf-Lasts claims buckets _ g behind
            | failed other_reason text ↦ AreBucketsOf-Lasts claims buckets _ g behind
          ],
        )

  check_count-Safe :
      (g : List Event) (s : Filling Bucket)
      → AreBucketsOf claims (s.1) g
      → Safe P
          (λ g r. (now : Dict (Option Bucket)) → (r ≡ ok now) → AreBucketsOf claims now g)
          g
          (check_count claims (settle "could not get one or more Buckets: %w" (s.1) (s.0)))
  unfolding check_count settle
  check_count-Safe g ([], buckets) are = λ now r.
      let same : buckets ≡ now = ground arith in subst (λ m. AreBucketsOf claims m g) same are
  check_count-Safe g (e ∷ errs, buckets) are = λ now r. ground arith

  pub get_buckets_for_claims-Safe :
      (g : List Event)
      → Safe P
          (λ g r. (now : Dict (Option Bucket)) → (r ≡ ok now) → AreBucketsOf claims now g)
          g
          (get_buckets_for_claims claims)
  unfolding get_buckets_for_claims
  get_buckets_for_claims-Safe g = Safe-bind P _ g (fold_map get_bucket_of ([], []) claims) _ (
      Safe-weaken P g (fold_map get_bucket_of ([], []) claims) (λ g s are. check_count-Safe g s are)
        (
          orders g,
          λ choices.
              fold_each-Safe P get_bucket_of (λ e. IsIn e claims) Going get_bucket_of-Safe _
                (rearrange choices claims) ([], [])
                ((All-rearrange (λ e. IsIn e claims) choices claims).1
                  (All-IsIn (λ e. IsIn e claims) claims (λ e i. i)))
                tt,
        ))
