-- ===== src/Sidecar/AccessSecrets/Laws.antt =====
-- What the loops over the Buckets and the Secrets of a BucketAccess have done where they end without an
-- error, whatever the API server answers.
use cosi.Base.{String, true, false, none, List, [], ◌∷◌, ◌++◌, ◌≡◌, ◌≢◌, ◌↔◌, refl, arith}
use cosi.Base.Dict.{Dict, has}
use cosi.Base.Lists.{All}
use cosi.Errors.Laws.{fail_if_any-ok, added}
use cosi.Errors.{Error, not_found, non_retryable_error, Result, ok, err}
use cosi.Api.Names.{bucket_claim_being_deleted}
use cosi.Api.Meta.{NamespacedName}
use cosi.Api.Buckets.{Bucket}
use cosi.Api.Accesses.{BucketAccess, BucketClaimAccess, AccessedBucket}
use cosi.Api.Secrets.{Secret, Owning}
use cosi.Driver.{DriverInfo}
use cosi.Effects.{Call, done, failed}
use cosi.Effects.Run.{Event}
use cosi.Effects.Safety.{Policy, Safe, Safe-bind, Safe-weaken}
use cosi.Effects.Loops.{fold_each}
use cosi.Effects.History.{Saw, Saw-Lasts, Ever, Ever-Lasts, fold_each-All}
use cosi.Sidecar.AccessSecrets.{
  validate_bucket_is_ready_for_access, check_bucket, get_and_validate_all_accessed_buckets,
  secret_name, Reserving, reserve_secret, found_secret, create_new_owned_access_secret,
  update_existing_access_secret_metadata, all_reserved, reserve_access_secrets, release_secret,
  release_found, delete_owned_access_secrets,
}

-- The Bucket is one of the driver, is provisioned under this ID, and neither it nor its claim is being
-- deleted.
abbrev pub IsReadyFor : DriverInfo → String → Bucket → Type 0
IsReadyFor driver id b =
    (has bucket_claim_being_deleted b.metadata.annotations ≡ false)
    × (b.metadata.deletion_timestamp ≡ none)
    × (b.status.bucket_id ≡ id)
    × (id ≢ "")
    × (b.spec.driver_name ≡ driver.name)

-- A Bucket may be accessed under an ID exactly when it is provisioned by this driver under that ID, the
-- ID is not empty, and neither the Bucket nor its claim is being deleted.
pub validate_bucket_is_ready_for_access_iff :
    (driver : DriverInfo) (b : Bucket) (id : String)
    → (validate_bucket_is_ready_for_access driver b id ≡ ok tt) ↔ IsReadyFor driver id b
unfolding validate_bucket_is_ready_for_access
validate_bucket_is_ready_for_access_iff driver b id = ground arith

abbrev pub NoErrors : List Error → Type 0
NoErrors errs = errs ≡ []

checked :
    (errs : List Error) (r : Result (Unit {0}))
    → NoErrors (elim r [ ok u ↦ errs | err e ↦ errs ++ non_retryable_error e ∷ [] ])
    → NoErrors errs × (r ≡ ok tt)
checked errs (ok u) h = (h, refl)
checked errs (err e) h = absurd (added errs (non_retryable_error e) h)

-- The Bucket was read, and may be accessed.
abbrev pub ReadyFor : DriverInfo → AccessedBucket → Event → Type 0
ReadyFor driver ab (Call.get_bucket n, done b) =
    (n.name ≡ ab.bucket_name) × IsReadyFor driver ab.bucket_id b
ReadyFor driver ab _ = ⊥

module _ (P : Policy) (driver : DriverInfo)
    (reads : (g : List Event) (n : NamespacedName) → P g (Call.get_bucket n)) where
  check_bucket-Safe :
      (g : List Event) (ab : AccessedBucket) (errs : List Error)
      → Safe P
          (λ g t. NoErrors t → NoErrors errs × Saw (ReadyFor driver ab) g)
          g
          (check_bucket driver errs ab)
  unfolding check_bucket
  check_bucket-Safe g ab errs = grind (
    arith,
    reads,
    added errs,
    checked errs,
    λ (b : Bucket). validate_bucket_is_ready_for_access_iff driver b ab.bucket_id,
  )

  pub get_and_validate_all_accessed_buckets-Safe :
      (g : List Event) (access : BucketAccess)
      → Safe P
          (λ g r.
            (r ≡ ok tt) → All (λ ab. Saw (ReadyFor driver ab) g) access.status.accessed_buckets)
          g
          (get_and_validate_all_accessed_buckets driver access)
  unfolding get_and_validate_all_accessed_buckets
  get_and_validate_all_accessed_buckets-Safe g access =
      Safe-bind P _ g (fold_each (check_bucket driver) [] access.status.accessed_buckets) _ (
        Safe-weaken P g (fold_each (check_bucket driver) [] access.status.accessed_buckets)
          (λ g errs k r. (k (fail_if_any-ok _ errs r)).1)
          (fold_each-All P (check_bucket driver) NoErrors (λ ab. Saw (ReadyFor driver ab))
            (λ ab. Saw-Lasts (ReadyFor driver ab)) check_bucket-Safe g
            access.status.accessed_buckets []))

module _ (owning : Owning) where
  -- The Secret of the reference was read: it did not exist, or was controlled by the access.
  abbrev pub IsOurs : BucketAccess → BucketClaimAccess → Event → Type 0
  IsOurs access ref (Call.get_secret n, failed not_found text) = n ≡ secret_name access ref
  IsOurs access ref (Call.get_secret n, done s) =
      (n ≡ secret_name access ref) × (owning.is_controlled_by s access ≡ true)
  IsOurs access ref _ = ⊥

  -- The last calls found that the Secret of the reference does not exist or is not controlled by the
  -- access, or deleted it.
  abbrev pub IsGone : BucketAccess → BucketClaimAccess → List Event → Type 0
  IsGone access ref ((Call.get_secret n, failed not_found text) ∷ h) = n ≡ secret_name access ref
  IsGone access ref ((Call.get_secret n, done s) ∷ h) =
      (n ≡ secret_name access ref) × (owning.is_controlled_by s access ≡ false)
  IsGone access ref
        ((Call.delete_secret s, done u)
          ∷ (Call.update_secret w, done s')
          ∷ (Call.get_secret n, done t)
          ∷ h) =
      (n ≡ secret_name access ref)
      × (owning.is_controlled_by t access ≡ true)
      × (w.owner_references ≡ t.owner_references)
      × (s ≡ s')
  IsGone access ref _ = ⊥

module _ (P : Policy) (owning : Owning)
    (gets : (g : List Event) (n : NamespacedName) → P g (Call.get_secret n))
    (creates : (g : List Event) (s : Secret) → P g (Call.create_secret s))
    (updates : (g : List Event) (s : Secret) → P g (Call.update_secret s)) where
  reserve_secret-Safe :
      (access : BucketAccess) (g : List Event) (ref : BucketClaimAccess) (s : Reserving)
      → Safe P
          (λ g t. NoErrors (t.0) → NoErrors (s.0) × Saw (IsOurs owning access ref) g)
          g
          (reserve_secret owning access s ref)
  unfolding reserve_secret found_secret create_new_owned_access_secret
      update_existing_access_secret_metadata
  reserve_secret-Safe access g ref s = grind (arith, gets, creates, updates, added (s.0))

  all_reserved-NoErrors :
      (access : BucketAccess) (s : Reserving) (secrets : Dict Secret)
      → all_reserved owning access s ≡ ok secrets
      → NoErrors (s.0)
  unfolding all_reserved
  all_reserved-NoErrors access ([], m) secrets h = refl
  all_reserved-NoErrors access (e ∷ errs, m) secrets h = ground arith

  pub reserve_access_secrets-Safe :
      (g : List Event) (access : BucketAccess)
      → Safe P
          (λ g r.
            (secrets : Dict Secret)
            → (r ≡ ok secrets)
            → All (λ ref. Saw (IsOurs owning access ref) g) access.spec.bucket_claims)
          g
          (reserve_access_secrets owning access)
  unfolding reserve_access_secrets
  reserve_access_secrets-Safe g access =
      Safe-bind P _ g (fold_each (reserve_secret owning access) ([], []) access.spec.bucket_claims)
        _
        (Safe-weaken P g
          (fold_each (reserve_secret owning access) ([], []) access.spec.bucket_claims)
          (λ g s k secrets r. (k (all_reserved-NoErrors access s secrets r)).1)
          (fold_each-All P (reserve_secret owning access) (λ s. NoErrors (s.0))
            (λ ref. Saw (IsOurs owning access ref)) (λ ref. Saw-Lasts (IsOurs owning access ref))
            (λ g ref s. reserve_secret-Safe access g ref s) g access.spec.bucket_claims ([], [])))

  release_secret-Safe :
      (deletes : (g : List Event) (s : Secret) → P g (Call.delete_secret s)) (access : BucketAccess)
      (g : List Event) (ref : BucketClaimAccess) (errs : List Error)
      → Safe P
          (λ g t. NoErrors t → NoErrors errs × Ever (IsGone owning access ref) g)
          g
          (release_secret owning access errs ref)
  unfolding release_secret release_found
  release_secret-Safe deletes access g ref errs = grind (arith, gets, updates, deletes, added errs)

  pub delete_owned_access_secrets-Safe :
      (deletes : (g : List Event) (s : Secret) → P g (Call.delete_secret s)) (g : List Event)
      (access : BucketAccess)
      → Safe P
          (λ g r.
            (r ≡ ok tt) → All (λ ref. Ever (IsGone owning access ref) g) access.spec.bucket_claims)
          g
          (delete_owned_access_secrets owning access)
  unfolding delete_owned_access_secrets
  delete_owned_access_secrets-Safe deletes g access =
      Safe-bind P _ g (fold_each (release_secret owning access) [] access.spec.bucket_claims) _ (
        Safe-weaken P g (fold_each (release_secret owning access) [] access.spec.bucket_claims)
          (λ g errs k r. (k (fail_if_any-ok _ errs r)).1)
          (fold_each-All P (release_secret owning access) NoErrors
            (λ ref. Ever (IsGone owning access ref)) (λ ref. Ever-Lasts (IsGone owning access ref))
            (λ g ref errs. release_secret-Safe deletes access g ref errs) g
            access.spec.bucket_claims []))
