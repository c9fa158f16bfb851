-- ===== src/Sidecar/AccessConfig/Laws.antt =====
-- What is asked of the driver for an access, and which answers are taken.
use cosi.Base.{String, true, some, List, [], ◌∷◌, ◌≡◌, ◌≢◌, ◌↔◌, refl, arith}
use cosi.Base.Dict.{Dict, lookup, insert, has}
use cosi.Base.Lists.{All, append-empty_iff}
use cosi.Errors.{Result, ok, err}
use cosi.Api.Accesses.{BucketAccess, BucketClaimAccess, AccessedBucket}
use cosi.Sidecar.AccessConfig.{
  bucket_ids_by_claim_name, bucket_config, Configuring, configured, configure,
  BucketGrantAccessConfig, generate_internal_accessed_bucket_configs, rpc_grant_buckets_list,
  revoke_list, InternalGrantAccessConfig,
}
use cosi.Sidecar.AccessResponse.{GrantedAccessApiDetails, missing_keys, validate_granted_access}

module _ {V : Type 0} (P : String × V → Type 0) where
  All-insert : (k : String) (v : V) (m : Dict V) → P (k, v) → All P m → All P (insert k v m)
  unfolding insert
  All-insert k v [] p a = (p, tt)
  All-insert k v ((j, w) ∷ m) p a = ground (arith, All-insert k v m p (a.1))

-- A property of the accessed buckets' IDs is one of the IDs that the driver is asked for.
module _ (P : String → Type 0) where
  abbrev IdIs : String × String → Type 0
  IdIs e = P (e.1)

  abbrev KeyIs : String × BucketGrantAccessConfig → Type 0
  KeyIs e = P (e.0)

  ids-All :
      (abs : List AccessedBucket) (ids : Dict String)
      → All (λ ab. P (ab.bucket_id)) abs
      → All IdIs ids
      → All IdIs (bucket_ids_by_claim_name abs ids)
  unfolding bucket_ids_by_claim_name
  ids-All [] ids a i = i
  ids-All (ab ∷ abs) ids a i =
      ids-All abs _ (a.1) (All-insert IdIs (ab.bucket_claim_name) (ab.bucket_id) ids (a.0) i)

  lookup-All : (k v : String) (m : Dict String) → All IdIs m → lookup k m ≡ some v → P v
  unfolding lookup
  lookup-All k v [] a found = ground arith
  lookup-All k v ((j, w) ∷ m) a found = ground (arith, lookup-All k v m)

  bucket_config-Key :
      (ids : Dict String) (ref : BucketClaimAccess) (id : String) (cfg : BucketGrantAccessConfig)
      → All IdIs ids
      → bucket_config ids ref ≡ ok (id, cfg)
      → P id
  unfolding bucket_config
  bucket_config-Key ids ref id cfg a h = ground (arith, lookup-All ref.bucket_claim_name id ids)

  configured-Key :
      (ids : Dict String) (ref : BucketClaimAccess) (s : Configuring)
      (r : Result (String × BucketGrantAccessConfig))
      → bucket_config ids ref ≡ r
      → All IdIs ids
      → All KeyIs (s.1)
      → All KeyIs ((configured s r).1)
  configured-Key ids ref s (ok (id, cfg)) h a k =
      All-insert KeyIs id cfg (s.1) (bucket_config-Key ids ref id cfg a h) k
  configured-Key ids ref s (err e) h a k = k

  configure-Key :
      (ids : Dict String) (refs : List BucketClaimAccess) (s : Configuring)
      → All IdIs ids
      → All KeyIs (s.1)
      → All KeyIs ((configure ids refs s).1)
  unfolding configure
  configure-Key ids [] s a k = k
  configure-Key ids (ref ∷ refs) s a k =
      configure-Key ids refs _ a (configured-Key ids ref s (bucket_config ids ref) refl a k)

  -- The configurations are for IDs of accessed buckets.
  pub generate-Key :
      (access : BucketAccess) (cfgs : Dict BucketGrantAccessConfig)
      → All (λ ab. P (ab.bucket_id)) access.status.accessed_buckets
      → generate_internal_accessed_bucket_configs access ≡ ok cfgs
      → All KeyIs cfgs
  unfolding generate_internal_accessed_bucket_configs
  generate-Key access cfgs a h =
      let ids = bucket_ids_by_claim_name access.status.accessed_buckets [] in
      ground (
        arith,
        configure-Key ids access.spec.bucket_claims ([], [])
            (ids-All access.status.accessed_buckets [] a tt) tt,
      )

  pub rpc_grant_buckets_list-All :
      (cfgs : Dict BucketGrantAccessConfig)
      → All KeyIs cfgs
      → All (λ b. P (b.bucket_id)) (rpc_grant_buckets_list cfgs)
  unfolding rpc_grant_buckets_list
  rpc_grant_buckets_list-All [] k = tt
  rpc_grant_buckets_list-All (c ∷ cfgs) k = ground (arith, rpc_grant_buckets_list-All cfgs)

pub missing_keys_iff :
    {V W : Type 0} (format : String) (m : Dict V) (n : Dict W)
    → (missing_keys format m n ≡ []) ↔ All (λ e. has (e.0) n ≡ true) m
unfolding missing_keys
missing_keys_iff format [] n = ground arith
missing_keys_iff format ((k, v) ∷ m) n = ground (arith, missing_keys_iff format m n)

-- A granted access is accepted exactly when the driver granted every bucket that was asked for, and no
-- other.
pub validate_granted_access_iff :
    (cfg : InternalGrantAccessConfig) (granted : GrantedAccessApiDetails)
    → (validate_granted_access cfg granted ≡ ok tt) ↔ (
        All (λ e. has (e.0) granted.bucket_info_by_bucket_id ≡ true) cfg.access_configs_by_bucket_id
        × All
            (λ e. has (e.0) cfg.access_configs_by_bucket_id ≡ true)
            granted.bucket_info_by_bucket_id)
unfolding validate_granted_access
validate_granted_access_iff cfg granted = ground (
  arith,
  missing_keys_iff "granted access missing for bucket ID %q" cfg.access_configs_by_bucket_id
      granted.bucket_info_by_bucket_id,
  missing_keys_iff "granted access to unknown bucket with ID %q" granted.bucket_info_by_bucket_id
      cfg.access_configs_by_bucket_id,
  append-empty_iff
      (missing_keys "granted access missing for bucket ID %q" cfg.access_configs_by_bucket_id
        granted.bucket_info_by_bucket_id)
      (missing_keys "granted access to unknown bucket with ID %q" granted.bucket_info_by_bucket_id
        cfg.access_configs_by_bucket_id),
)

-- The IDs are those of the accessed buckets, one by one, and none is empty.
abbrev pub AreIds : List AccessedBucket → List String → Type 0
AreIds [] [] = Unit
AreIds [] (id ∷ ids) = ⊥
AreIds (ab ∷ abs) [] = ⊥
AreIds (ab ∷ abs) (id ∷ ids) = ((id ≡ ab.bucket_id) × (id ≢ "")) × AreIds abs ids

pub revoke_list_iff :
    (abs : List AccessedBucket) (ids : List String) → (revoke_list abs ≡ ok ids) ↔ AreIds abs ids
unfolding revoke_list
revoke_list_iff [] [] = ground arith
revoke_list_iff [] (id ∷ ids) = ground arith
revoke_list_iff (ab ∷ abs) [] = ground arith
revoke_list_iff (ab ∷ abs) (id ∷ ids) = ground (arith, revoke_list_iff abs ids)
