-- ===== src/Protocol/Gcs.antt =====
-- internal/protocol/gcs.go
use cosi.Base.{String, Option, none, some, [], ◌∷◌, ◌++◌, ◌==◌, if◌then◌else◌}
use cosi.Base.Dict.{Dict, value}
use cosi.Base.Lists.{is_empty}
use cosi.Errors.{Result, fail_if_any}
use cosi.Rpc.{GcsBucketInfo, GcsCredentialInfo}
use cosi.Api.Names.{
  protocol_gcs, auth_key, auth_service_account, var_gcs_project_id, var_gcs_bucket_name,
  var_gcs_access_id, var_gcs_access_secret, var_gcs_private_key_name, var_gcs_service_account,
}
use cosi.Protocol.{RpcApiTranslator, require}

unfoldable pub bucket_info_to_api : Option GcsBucketInfo → Dict String
bucket_info_to_api none = []
bucket_info_to_api (some b) =
    (var_gcs_bucket_name, b.bucket_name) ∷ (var_gcs_project_id, b.project_id) ∷ []

unfoldable pub bucket_info_to_rpc : Dict String → Option GcsBucketInfo
unfolding value
bucket_info_to_rpc vars =
    if is_empty vars
    then none
    else some (record {
      project_id = value var_gcs_project_id vars;
      bucket_name = value var_gcs_bucket_name vars;
    })

unfoldable pub validate_bucket_info : Dict String → String → Result (Unit {0})
unfolding value require fail_if_any
validate_bucket_info vars auth_type = fail_if_any "GCS bucket info is invalid: %w" (
    require "GCS bucket name cannot be unset" (value var_gcs_bucket_name vars)
    ++ require "GCS project ID cannot be unset" (value var_gcs_project_id vars))

unfoldable pub credential_to_api : Option GcsCredentialInfo → Dict String
credential_to_api none = []
credential_to_api (some c) =
    (var_gcs_access_id, c.access_id)
    ∷ (var_gcs_access_secret, c.access_secret)
    ∷ (var_gcs_private_key_name, c.private_key_name)
    ∷ (var_gcs_service_account, c.service_account)
    ∷ []

unfoldable pub credential_to_rpc : Dict String → Option GcsCredentialInfo
unfolding value
credential_to_rpc vars =
    if is_empty vars
    then none
    else some (record {
      access_id = value var_gcs_access_id vars;
      access_secret = value var_gcs_access_secret vars;
      private_key_name = value var_gcs_private_key_name vars;
      service_account = value var_gcs_service_account vars;
    })

-- What is required depends on the authentication type; of an unknown type nothing is.
unfoldable pub validate_credential : Dict String → String → Result (Unit {0})
unfolding value require fail_if_any
validate_credential vars auth_type = fail_if_any "GCS credential info is invalid: %w" (
    if auth_type == auth_key
    then require "GCS access ID cannot be unset" (value var_gcs_access_id vars)
      ++ require "GCS access secret cannot be unset" (value var_gcs_access_secret vars)
    else if auth_type == auth_service_account
    then require "GCS private key name cannot be unset" (value var_gcs_private_key_name vars)
      ++ require "GCS service account cannot be unset" (value var_gcs_service_account vars)
    else [])

-- `GcsBucketInfoTranslator`
unfoldable pub bucket_info_translator : RpcApiTranslator GcsBucketInfo
bucket_info_translator = record {
  api_protocol = protocol_gcs;
  rpc_to_api = bucket_info_to_api;
  api_to_rpc = bucket_info_to_rpc;
  validate = validate_bucket_info;
}

-- `GcsCredentialTranslator`
unfoldable pub credential_translator : RpcApiTranslator GcsCredentialInfo
credential_translator = record {
  api_protocol = protocol_gcs;
  rpc_to_api = credential_to_api;
  api_to_rpc = credential_to_rpc;
  validate = validate_credential;
}
