-- ===== src/Sidecar/SecretFilling.antt =====
-- The data of the Secrets of a granted BucketAccess, as `BucketAccessReconciler` in
-- sidecar/pkg/reconciler/bucketaccess.go writes it.
use cosi.Base.{String, Option, none, some, List, [], ◌∷◌, ◌++◌}
use cosi.Base.Dict.{Dict, lookup}
use cosi.Errors.{Error, errorf, non_retryable_error, Reason, Result, fail_if_any}
use cosi.Api.Secrets.{Secret}
use cosi.Translator.{merge}
use cosi.Effects.{Call, Reply, done, failed, Program, return, call, bind}
use cosi.Effects.Loops.{fold_map}
use cosi.Sidecar.AccessConfig.{InternalGrantAccessConfig}
use cosi.Sidecar.AccessResponse.{GrantedAccessApiDetails}

-- A Secret with the credentials and the info of its bucket.
abbrev pub filled : Dict String → Dict String → Secret → Secret
filled credentials info s = record s { string_data = merge info (merge credentials []) }

abbrev pub fill_answered : List Error → Secret → Reply Reason Secret → List Error
fill_answered errs s (done s') = errs
fill_answered errs s (failed k text) =
    errs
    ++ errorf "failed to update BucketAccess Secret %q with bucket and credential info"
        (s.metadata.name ∷ [])
      ∷ []

unfoldable pub fill_found :
    Dict String → Dict String → List Error → String → Option Secret → Program (List Error)
unfolding merge
fill_found credentials info errs name none = return (
    errs
    ++ non_retryable_error (errorf "failed internal lookup for Secret with name %q" (name ∷ []))
      ∷ [])
fill_found credentials info errs name (some s) =
    call (Call.update_secret (filled credentials info s))
      (λ r. return (fill_answered errs (filled credentials info s) r))

-- The body of the loop of `updateSecretsWithGrantedInfo`.
unfoldable pub fill_secret :
    InternalGrantAccessConfig
    → Dict String
    → List Error
    → String × Dict String
    → Program (List Error)
unfolding lookup fill_found
fill_secret cfg credentials errs (id, info) = elim (lookup id cfg.access_configs_by_bucket_id) [
  | none ↦ return (errs ++ non_retryable_error (errorf "unknown bucket ID %q" (id ∷ [])) ∷ [])
  | some c ↦
      fill_found credentials info errs c.access_secret_name
        (lookup c.access_secret_name cfg.secrets_by_name)
]

-- `updateSecretsWithGrantedInfo`
unfoldable pub update_secrets_with_granted_info :
    InternalGrantAccessConfig → GrantedAccessApiDetails → Program (Result (Unit {0}))
update_secrets_with_granted_info cfg granted =
    bind
      (fold_map (fill_secret cfg granted.shared_credential_info) []
        granted.bucket_info_by_bucket_id)
      λ errs. return (fail_if_any "failed to update one or more BucketAccess Secrets: %w" errs)
