-- ===== src/Sidecar/AccessResponse.antt =====
-- What `BucketAccessReconciler` in sidecar/pkg/reconciler/bucketaccess.go makes of the driver's answer to
-- a grant.
use cosi.Base.{String, some, List, [], ◌∷◌, ◌++◌, ◌==◌, if◌then◌else◌}
use cosi.Base.Dict.{Dict, insert, has}
use cosi.Errors.{Error, errorf, wrapf, Result, ok, err, settle, fail_if_any}
use cosi.Rpc.{GrantedBucket, GrantResponse}
use cosi.Translator.{ValidationConfig, credentials_to_api, bucket_info_to_api}
use cosi.Sidecar.AccessConfig.{InternalGrantAccessConfig}

-- `grantedAccessApiDetails`
pub record GrantedAccessApiDetails : Type 0 where
  pub account_id : String
  pub shared_credential_info : Dict String
  pub bucket_info_by_bucket_id : Dict (Dict String)

-- The errors of the loop over the granted buckets, and the info by bucket ID.
abbrev pub Infos : Type 0
Infos = List Error × Dict (Dict String)

abbrev pub info_added : String → Infos → Result (List String × Dict String) → Infos
info_added id (errs, infos) (ok r) = (errs, insert id (r.1) infos)
info_added id (errs, infos) (err e) =
    (errs ++ wrapf "invalid bucket info at index %d: %w" [] e ∷ [], infos)

unfoldable pub add_granted_bucket : ValidationConfig → Infos → GrantedBucket → Infos
unfolding bucket_info_to_api insert
add_granted_bucket v (errs, infos) granted =
    if granted.bucket_id == ""
    then (errs ++ errorf "missing bucket ID at index %d" [] ∷ [], infos)
    else info_added granted.bucket_id (errs, infos)
        (bucket_info_to_api granted.bucket_info (some v))

unfoldable pub add_granted_buckets : ValidationConfig → Infos → List GrantedBucket → Infos
unfolding add_granted_bucket
add_granted_buckets v s [] = s
add_granted_buckets v s (b ∷ bs) = add_granted_buckets v (add_granted_bucket v s b) bs

-- The errors before that loop: a missing account ID, and invalid credentials.
unfoldable pub response_errors : GrantResponse → Result (Dict String) → List Error
response_errors resp credentials =
    (if resp.account_id == "" then errorf "missing account ID" [] ∷ [] else [])
    ++ elim credentials [
      | ok info ↦ []
      | err e ↦ wrapf "shared credentials are invalid: %w" [] e ∷ []
    ]

abbrev pub info_of : Result (Dict String) → Dict String
info_of (ok info) = info
info_of (err e) = []

-- `translateDriverGrantBucketAccessResponseToApi`. The indices in its messages are left out.
unfoldable pub translate_driver_grant_bucket_access_response_to_api :
    GrantResponse → ValidationConfig → Result GrantedAccessApiDetails
unfolding credentials_to_api response_errors add_granted_buckets settle
translate_driver_grant_bucket_access_response_to_api resp v =
    let credentials = credentials_to_api resp.credentials v in
    let r = add_granted_buckets v (response_errors resp credentials, []) resp.buckets in
    settle "granted access response is invalid: %w"
      (record {
        account_id = resp.account_id;
        shared_credential_info = info_of credentials;
        bucket_info_by_bucket_id = r.1;
      })
      (r.0)

-- An error for each key of the first map that the second lacks.
unfoldable pub missing_keys : {V W : Type 0} → String → Dict V → Dict W → List Error
unfolding has
missing_keys format [] m = []
missing_keys format ((k, v) ∷ entries) m =
    let rest = missing_keys format entries m in
    if has k m then rest else errorf format (k ∷ []) ∷ rest

-- `validateGrantedAccess`
unfoldable pub validate_granted_access :
    InternalGrantAccessConfig → GrantedAccessApiDetails → Result (Unit {0})
unfolding missing_keys fail_if_any
validate_granted_access cfg granted = fail_if_any "granted access is invalid: %w" (
    missing_keys "granted access missing for bucket ID %q" cfg.access_configs_by_bucket_id
      granted.bucket_info_by_bucket_id
    ++ missing_keys "granted access to unknown bucket with ID %q" granted.bucket_info_by_bucket_id
        cfg.access_configs_by_bucket_id)
