-- ===== src/Controller/AccessClaims/Laws.antt =====
-- What is known of the claims of an access after the loops over them, whatever the API server answers.
use cosi.Base.{
  String, true, Option, none, some, List, [], ◌∷◌, ◌≡◌, inl, refl, arith, if◌then◌else◌, ◌==◌,
  string_discrete,
}
use mathlib.Core.Path.{subst}
use cosi.Base.Dict.{Dict, lookup, insert, has, has-insert}
use cosi.Base.Lists.{All}
use cosi.Errors.{not_found, already_exists, other_reason, ok}
use cosi.Errors.Laws.{added, settle-ok}
use cosi.Api.Meta.{NamespacedName}
use cosi.Api.Claims.{BucketClaim}
use cosi.Api.Accesses.{BucketClaimAccess}
use cosi.Effects.{Call, done, failed}
use cosi.Effects.Run.{Event}
use cosi.Effects.Safety.{Policy, Safe, Safe-bind, Safe-weaken}
use cosi.Effects.Loops.{fold_each}
use cosi.Effects.History.{Saw, Saw-Lasts, Lasts, All-Lasts}
use cosi.Controller.AccessClaims.{Filling, get_claim, get_all_bucket_claims}

-- The claim of this name was read, or did not exist.
abbrev pub IsRead : String → String × Option BucketClaim → Event → Type 0
IsRead namespace (name, none) (Call.get_bucket_claim n, failed not_found text) =
    n ≡ record { namespace = namespace; name = name }
IsRead namespace (name, some c) (Call.get_bucket_claim n, done c') =
    (n ≡ record { namespace = namespace; name = name }) × (c' ≡ c)
IsRead namespace e _ = ⊥

abbrev pub AreRead : String → Dict (Option BucketClaim) → List Event → Type 0
AreRead namespace claims h = All (λ e. Saw (IsRead namespace e) h) claims

pub AreRead-Lasts :
    (namespace : String) (claims : Dict (Option BucketClaim)) → Lasts (AreRead namespace claims)
AreRead-Lasts namespace claims =
    All-Lasts (λ e. Saw (IsRead namespace e)) claims (λ e. Saw-Lasts (IsRead namespace e))

module _ {V : Type 0} (P : String × V → Type 0) where
  pub All-insert : (k : String) (v : V) (m : Dict V) → P (k, v) → All P m → All P (insert k v m)
  unfolding insert
  All-insert k v [] p a = (p, tt)
  All-insert k v ((j, w) ∷ m) p a = ground (arith, All-insert k v m p (a.1))

  -- An entry of a map that has this key.
  pub All-has :
      (k : String) (m : Dict V)
      → has k m ≡ true
      → All P m
      → (v : V) × (lookup k m ≡ some v) × ((j : String) × (j ≡ k) × P (j, v))
  unfolding has lookup
  All-has k [] h a = ground arith
  All-has k ((j, v) ∷ m) h a = elim (string_discrete j k) [
    | yes p ↦ (v, ground arith, (j, p, a.0))
    | no n ↦ let (w, found, rest) = All-has k m (ground arith) (a.1) in (w, ground arith, rest)
  ]

  -- The entry that a lookup finds.
  pub All-lookup :
      (k : String) (v : V) (m : Dict V)
      → lookup k m ≡ some v
      → All P m
      → (j : String) × (j ≡ k) × P (j, v)
  unfolding lookup
  All-lookup k v [] h a = ground arith
  All-lookup k v ((j, w) ∷ m) h a = elim (string_discrete j k) [
    | yes p ↦ let same : w ≡ v = ground arith in (j, p, subst (λ x. P (j, x)) same (a.0))
    | no n ↦ All-lookup k v m (ground arith) (a.1)
  ]

module _ (P : Policy)
    (reads : (g : List Event) (n : NamespacedName) → P g (Call.get_bucket_claim n))
    (namespace : String) where
  abbrev of_ref : BucketClaimAccess → NamespacedName
  of_ref ref = record { namespace = namespace; name = ref.bucket_claim_name }

  -- The claims were read, and the loop's step adds an entry for this reference.
  abbrev Got : BucketClaimAccess → List Event → Filling BucketClaim → Filling BucketClaim → Type 0
  Got ref g s t =
      AreRead namespace (t.1) g
      × ((t.0 ≡ [])
          → (s.0 ≡ [])
            × ((k : String)
                → has k (t.1) ≡ (if ref.bucket_claim_name == k then true else has k (s.1))))

  get_claim-Safe :
      (g : List Event) (ref : BucketClaimAccess) (s : Filling BucketClaim)
      → AreRead namespace (s.1) g
      → Safe P (λ g t. Got ref g s t) g (get_claim namespace s ref)
  unfolding get_claim
  get_claim-Safe g ref (errs, claims) read = (
    reads g _,
    elim [
      | done c ↦
          let e : Event = (Call.get_bucket_claim (of_ref ref), done c) in
          (
            All-insert (λ x. Saw (IsRead namespace x) (e ∷ g)) ref.bucket_claim_name (some c) claims
                (inl (refl, refl)) (AreRead-Lasts namespace claims e g read),
            λ eq. (eq, λ k. has-insert k ref.bucket_claim_name (some c) claims),
          )
      | failed not_found text ↦
          let e : Event = (Call.get_bucket_claim (of_ref ref), failed not_found text) in
          (
            All-insert (λ x. Saw (IsRead namespace x) (e ∷ g)) ref.bucket_claim_name none claims
                (inl refl) (AreRead-Lasts namespace claims e g read),
            λ eq. (eq, λ k. has-insert k ref.bucket_claim_name none claims),
          )
      | failed already_exists text ↦
          (AreRead-Lasts namespace claims _ g read, λ eq. absurd (added errs _ eq))
      | failed other_reason text ↦
          (AreRead-Lasts namespace claims _ g read, λ eq. absurd (added errs _ eq))
    ],
  )

  -- The claims of the loop's map were read, and its keys are those that it had and the references.
  abbrev GotAll :
      List BucketClaimAccess → List Event → Filling BucketClaim → Filling BucketClaim → Type 0
  GotAll refs g s t =
      AreRead namespace (t.1) g
      × ((t.0 ≡ [])
          → (s.0 ≡ [])
            × ((k : String) → has k (s.1) ≡ true → has k (t.1) ≡ true)
            × All (λ ref. has (ref.bucket_claim_name) (t.1) ≡ true) refs)

  fold-Safe :
      (g : List Event) (refs : List BucketClaimAccess) (s : Filling BucketClaim)
      → AreRead namespace (s.1) g
      → Safe P (λ g t. GotAll refs g s t) g (fold_each (get_claim namespace) s refs)
  fold-Safe g [] s read = (read, λ e. (e, λ k h. h, tt))
  fold-Safe g (ref ∷ refs) s read =
      Safe-bind P (λ g t. GotAll (ref ∷ refs) g s t) g (get_claim namespace s ref)
        (λ t. fold_each (get_claim namespace) t refs)
        (Safe-weaken P g (get_claim namespace s ref)
          (λ g t got.
            Safe-weaken P g (fold_each (get_claim namespace) t refs)
              (λ g u all. (
                all.0,
                λ e.
                    let (none_yet, keeps, keys) = all.1 e in
                    let (start, added_key) = got.1 none_yet in
                    (
                      start,
                      λ k h. keeps k (ground (arith, added_key k)),
                      (
                        keeps ref.bucket_claim_name
                            (ground (arith, added_key ref.bucket_claim_name)),
                        keys,
                      ),
                    ),
              ))
              (fold-Safe g refs t (got.0)))
          (get_claim-Safe g ref s read))

  pub get_all_bucket_claims-Safe :
      (g : List Event) (refs : List BucketClaimAccess)
      → Safe P
          (λ g r.
            (claims : Dict (Option BucketClaim))
            → (r ≡ ok claims)
            → AreRead namespace claims g
              × All (λ ref. has (ref.bucket_claim_name) claims ≡ true) refs)
          g
          (get_all_bucket_claims namespace refs)
  unfolding get_all_bucket_claims
  get_all_bucket_claims-Safe g refs =
      Safe-bind P _ g (fold_each (get_claim namespace) ([], []) refs) _ (
        Safe-weaken P g (fold_each (get_claim namespace) ([], []) refs)
          (λ g t all claims r.
            let (none_left, same) = settle-ok _ (t.1) claims (t.0) r in
            let (start, keeps, keys) = all.1 none_left in
            subst
              (λ (m : Dict (Option BucketClaim)).
                AreRead namespace m g × All (λ ref. has (ref.bucket_claim_name) m ≡ true) refs)
              same (all.0, keys))
          (fold-Safe g refs ([], []) tt))
