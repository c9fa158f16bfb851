-- ===== src/Sidecar/AccessConfig.antt =====
-- What `BucketAccessReconciler` in sidecar/pkg/reconciler/bucketaccess.go asks of the driver for a
-- BucketAccess.
pub mod Laws
pub mod Requests
pub mod Sufficient
use cosi.Base.{
  String, ◌<>◌, Bool, true, false, not, Option, none, some, List, [], ◌∷◌, ◌++◌, ◌==◌,
  if◌then◌else◌,
}
use cosi.Base.Dict.{Dict, lookup, insert, has}
use cosi.Errors.{
  Error, errorf, wrapf, joined, join, non_retryable_error, Result, ok, err, settle, fail_if_any,
}
use cosi.Rpc.{
  ProtocolType, AuthenticationType, unknown_authentication, key, service_account, AccessMode,
  GrantBucket, GrantedBucket, GrantResponse,
}
use cosi.Api.Accesses.{BucketAccess, BucketClaimAccess, AccessedBucket}
use cosi.Api.Secrets.{Secret}
use cosi.Handoff.{has_any_access_mode}
use cosi.Protocol.{protocol_to_rpc}
use cosi.Translator.{
  ValidationConfig, authentication_type_to_rpc, access_mode_to_rpc, credentials_to_api,
  bucket_info_to_api,
}

-- `internalAccessConfig`
pub record InternalAccessConfig : Type 0 where
  pub protocol : ProtocolType
  pub authentication_type : AuthenticationType
  pub service_account_name : String
  pub parameters : Dict String

-- `bucketGrantAccessConfig`
pub record BucketGrantAccessConfig : Type 0 where
  pub object_data_mode : AccessMode
  pub object_metadata_mode : AccessMode
  pub bucket_metadata_mode : AccessMode
  pub access_secret_name : String

-- `internalGrantAccessConfig`
pub record InternalGrantAccessConfig : Type 0 where
  pub shared : InternalAccessConfig
  pub account_name : String
  pub access_configs_by_bucket_id : Dict BucketGrantAccessConfig
  pub secrets_by_name : Dict Secret

-- `internalRevokeAccessConfig`
pub record InternalRevokeAccessConfig : Type 0 where
  pub shared : InternalAccessConfig
  pub account_id : String
  pub revoke_bucket_list : List String

-- The service account is used only where the driver authenticates by one.
abbrev pub service_account_for : AuthenticationType → String → String
service_account_for service_account name = name
service_account_for key name = ""
service_account_for unknown_authentication name = ""

-- `newInternalAccessConfig`
unfoldable pub new_internal_access_config : BucketAccess → Result InternalAccessConfig
unfolding protocol_to_rpc authentication_type_to_rpc
new_internal_access_config access = elim (protocol_to_rpc access.spec.protocol) [
  | err e ↦ err (non_retryable_error e)
  | ok proto ↦ elim (authentication_type_to_rpc access.status.authentication_type) [
    | err e ↦ err (non_retryable_error e)
    | ok auth ↦ ok (record {
      protocol = proto;
      authentication_type = auth;
      service_account_name = service_account_for auth access.spec.service_account_name;
      parameters = access.status.parameters;
    })
  ]
]

-- `bucketIdsByClaimName`
unfoldable pub bucket_ids_by_claim_name : List AccessedBucket → Dict String → Dict String
unfolding insert
bucket_ids_by_claim_name [] ids = ids
bucket_ids_by_claim_name (ab ∷ abs) ids =
    bucket_ids_by_claim_name abs (insert ab.bucket_claim_name ab.bucket_id ids)

abbrev pub error_of : {A : Type 0} → Result A → List Error
error_of (ok a) = []
error_of (err e) = e ∷ []

-- The three modes, or their errors joined.
unfoldable pub config_for :
    BucketClaimAccess
    → Result AccessMode
    → Result AccessMode
    → Result AccessMode
    → Result BucketGrantAccessConfig
unfolding join
config_for ref (ok data_mode) (ok metadata_mode) (ok bucket_mode) = ok (record {
  object_data_mode = data_mode;
  object_metadata_mode = metadata_mode;
  bucket_metadata_mode = bucket_mode;
  access_secret_name = ref.access_secret_name;
})
config_for ref a b c = err (
    wrapf "failed to parse access mode for BucketClaim %q: %w" (ref.bucket_claim_name ∷ [])
      (joined (join (error_of a ++ (error_of b ++ error_of c)))))

-- The bucket ID of a reference with its configuration: the body of the loop.
unfoldable pub bucket_config :
    Dict String → BucketClaimAccess → Result (String × BucketGrantAccessConfig)
unfolding lookup has_any_access_mode access_mode_to_rpc config_for
bucket_config ids ref = elim (lookup ref.bucket_claim_name ids) [
  | none ↦
      err
        (errorf "could not map BucketClaim %q to any accessed Bucket" (ref.bucket_claim_name ∷ []))
  | some id ↦
      if not (has_any_access_mode ref.access_modes)
      then err (errorf "BucketClaim %q has no access modes set" (ref.bucket_claim_name ∷ []))
      else elim (config_for ref (access_mode_to_rpc ref.access_modes.object_data)
          (access_mode_to_rpc ref.access_modes.object_metadata)
          (access_mode_to_rpc ref.access_modes.bucket_metadata)) [
            | ok cfg ↦ ok (id, cfg)
            | err e ↦ err e
          ]
]

-- The loop's variables: the errors, and the configurations by bucket ID.
abbrev pub Configuring : Type 0
Configuring = List Error × Dict BucketGrantAccessConfig

abbrev pub configured : Configuring → Result (String × BucketGrantAccessConfig) → Configuring
configured (errs, cfgs) (ok (id, cfg)) = (errs, insert id cfg cfgs)
configured (errs, cfgs) (err e) = (errs ++ e ∷ [], cfgs)

unfoldable pub configure : Dict String → List BucketClaimAccess → Configuring → Configuring
unfolding bucket_config insert
configure ids [] s = s
configure ids (ref ∷ refs) s = configure ids refs (configured s (bucket_config ids ref))

abbrev pub unless_failed : Configuring → Result (Dict BucketGrantAccessConfig)
unless_failed ([], cfgs) = ok cfgs
unless_failed (e ∷ errs, cfgs) = err (
    non_retryable_error
      (wrapf "failed to generate internal access configuration: %w" [] (joined (join (e ∷ errs)))))

-- `generateInternalAccessedBucketConfigs`
unfoldable pub generate_internal_accessed_bucket_configs :
    BucketAccess → Result (Dict BucketGrantAccessConfig)
unfolding bucket_ids_by_claim_name configure join
generate_internal_accessed_bucket_configs access = unless_failed (
    configure (bucket_ids_by_claim_name access.status.accessed_buckets []) access.spec.bucket_claims
      ([], []))

-- `newInternalGrantAccessConfig`
unfoldable pub new_internal_grant_access_config :
    BucketAccess → Dict Secret → Result InternalGrantAccessConfig
unfolding new_internal_access_config generate_internal_accessed_bucket_configs
new_internal_grant_access_config access secrets = elim (new_internal_access_config access) [
  | err e ↦ err e
  | ok shared ↦ elim (generate_internal_accessed_bucket_configs access) [
    | err e ↦ err e
    | ok cfgs ↦ ok (record {
      shared = shared;
      account_name = "ba-" <> access.metadata.uid;
      access_configs_by_bucket_id = cfgs;
      secrets_by_name = secrets;
    })
  ]
]

-- `RpcGrantBucketsList`, of the entries in the order in which its loop visits them.
unfoldable pub rpc_grant_buckets_list : List (String × BucketGrantAccessConfig) → List GrantBucket
rpc_grant_buckets_list [] = []
rpc_grant_buckets_list ((id, cfg) ∷ cfgs) =
    record {
      bucket_id = id;
      object_data_mode = cfg.object_data_mode;
      object_metadata_mode = cfg.object_metadata_mode;
      bucket_metadata_mode = cfg.bucket_metadata_mode;
    }
    ∷ rpc_grant_buckets_list cfgs

-- The IDs to revoke, up to the first that is missing.
unfoldable pub revoke_list : List AccessedBucket → Result (List String)
revoke_list [] = ok []
revoke_list (ab ∷ abs) =
    let rest : Result (List String) = elim (revoke_list abs) [
      | ok ids ↦ ok (ab.bucket_id ∷ ids)
      | err e ↦ err e
    ] in
    if ab.bucket_id == ""
    then err (
        non_retryable_error (
          errorf "unrecoverable degradation: accessedBucket for BucketClaim %q is missing bucket ID"
            (ab.bucket_claim_name ∷ [])))
    else rest

-- `newInternalRevokeAccessConfig`
unfoldable pub new_internal_revoke_access_config : BucketAccess → Result InternalRevokeAccessConfig
unfolding new_internal_access_config revoke_list
new_internal_revoke_access_config access = elim (new_internal_access_config access) [
  | err e ↦ err e
  | ok shared ↦
      if access.status.account_id == ""
      then err (
          non_retryable_error
            (errorf "cannot revoke access for BucketAccess with no account ID" []))
      else elim (revoke_list access.status.accessed_buckets) [
        | err e ↦ err e
        | ok ids ↦ ok (record {
          shared = shared;
          account_id = access.status.account_id;
          revoke_bucket_list = ids;
        })
      ]
]
