-- ===== src/Sidecar/AccessConfig/Requests.antt =====
-- The configuration of a grant is that of its BucketAccess, and a response that is taken names an
-- account.
use cosi.Base.{String, ◌<>◌, List, [], ◌∷◌, ◌≡◌, ◌≢◌, ◌⊎◌, inl, inr, refl, arith}
use cosi.Base.Dict.{Dict}
use cosi.Base.Lists.{All}
use cosi.Errors.Laws.{added}
use cosi.Errors.{ok}
use cosi.Rpc.{GrantedBucket, GrantResponse}
use cosi.Protocol.{protocol_to_rpc}
use cosi.Translator.{ValidationConfig, authentication_type_to_rpc, credentials_to_api}
use cosi.Api.Accesses.{BucketAccess, AccessedBucket}
use cosi.Api.Secrets.{Secret}
use cosi.Sidecar.AccessConfig.{
  InternalRevokeAccessConfig, new_internal_revoke_access_config, InternalGrantAccessConfig,
  new_internal_access_config, new_internal_grant_access_config,
}
use cosi.Sidecar.AccessResponse.{
  Infos, add_granted_bucket, add_granted_buckets, response_errors, GrantedAccessApiDetails,
  translate_driver_grant_bucket_access_response_to_api,
}
use cosi.Sidecar.AccessConfig.Laws.{generate-Key, AreIds, revoke_list_iff}

-- An accessed bucket has this ID.
abbrev pub IsIdOf : List AccessedBucket → String → Type 0
IsIdOf [] id = ⊥
IsIdOf (ab ∷ abs) id = (id ≡ ab.bucket_id) ⊎ IsIdOf abs id

ids_IsIdOf :
    (abs : List AccessedBucket) (P : String → Type 0)
    → ((id : String) → IsIdOf abs id → P id)
    → All (λ ab. P (ab.bucket_id)) abs
ids_IsIdOf [] P k = tt
ids_IsIdOf (ab ∷ abs) P k = (k ab.bucket_id (inl refl), ids_IsIdOf abs P (λ id i. k id (inr i)))

-- The configuration is for this access.
abbrev pub IsFor : BucketAccess → InternalGrantAccessConfig → Type 0
IsFor access cfg =
    (cfg.account_name ≡ "ba-" <> access.metadata.uid)
    × (protocol_to_rpc access.spec.protocol ≡ ok cfg.shared.protocol)
    × (authentication_type_to_rpc access.status.authentication_type
        ≡ ok cfg.shared.authentication_type)
    × (cfg.shared.parameters ≡ access.status.parameters)
    × All (λ e. IsIdOf access.status.accessed_buckets (e.0)) cfg.access_configs_by_bucket_id

pub new_internal_grant_access_config-IsFor :
    (access : BucketAccess) (secrets : Dict Secret) (cfg : InternalGrantAccessConfig)
    → new_internal_grant_access_config access secrets ≡ ok cfg
    → IsFor access cfg
unfolding new_internal_grant_access_config new_internal_access_config
new_internal_grant_access_config-IsFor access secrets cfg h =
    let all =
      ids_IsIdOf access.status.accessed_buckets (IsIdOf access.status.accessed_buckets)
        (λ id i. i) in
    let keys =
      generate-Key (IsIdOf access.status.accessed_buckets) access cfg.access_configs_by_bucket_id
        all in
    ground (arith, keys)

-- The configuration of a revocation is for all accessed buckets, each with its ID.
pub new_internal_revoke_access_config-Complete :
    (access : BucketAccess) (cfg : InternalRevokeAccessConfig)
    → new_internal_revoke_access_config access ≡ ok cfg
    → (access.status.account_id ≢ "") × AreIds access.status.accessed_buckets cfg.revoke_bucket_list
unfolding new_internal_revoke_access_config
new_internal_revoke_access_config-Complete access cfg h =
    ground (arith, revoke_list_iff access.status.accessed_buckets cfg.revoke_bucket_list)

module _ (v : ValidationConfig) where
  add_granted_buckets-Keeps :
      (s : Infos) (bs : List GrantedBucket) → (add_granted_buckets v s bs).0 ≡ [] → s.0 ≡ []
  unfolding add_granted_buckets add_granted_bucket
  add_granted_buckets-Keeps s [] h = h
  add_granted_buckets-Keeps s (b ∷ bs) h =
      grind (arith, added (s.0), add_granted_buckets-Keeps (add_granted_bucket v s b) bs h)

  -- A response that is taken names an account.
  pub translate-Named :
      (resp : GrantResponse) (details : GrantedAccessApiDetails)
      → translate_driver_grant_bucket_access_response_to_api resp v ≡ ok details
      → (details.account_id ≡ resp.account_id) × (details.account_id ≢ "")
  unfolding translate_driver_grant_bucket_access_response_to_api response_errors
  translate-Named resp details h =
      let keeps =
        add_granted_buckets-Keeps (response_errors resp (credentials_to_api resp.credentials v), [])
          resp.buckets in
      grind (arith, keeps)
