-- ===== src/Protocol/Azure.antt =====
-- internal/protocol/azure.go
use cosi.Base.{String, Option, none, some, [], ◌∷◌, ◌!=◌, if◌then◌else◌}
use cosi.Base.Dict.{Dict, value}
use cosi.Base.Lists.{is_empty}
use cosi.Errors.{Result, ok, fail_if_any}
use cosi.Rpc.{AzureBucketInfo, AzureCredentialInfo}
use cosi.Api.Names.{
  protocol_azure, auth_key, var_azure_storage_account, var_azure_access_token,
  var_azure_expiry_timestamp,
}
use cosi.Protocol.{RpcApiTranslator, require}

unfoldable pub bucket_info_to_api : Option AzureBucketInfo → Dict String
bucket_info_to_api none = []
bucket_info_to_api (some b) = (var_azure_storage_account, b.storage_account) ∷ []

unfoldable pub bucket_info_to_rpc : Dict String → Option AzureBucketInfo
unfolding value
bucket_info_to_rpc vars =
    if is_empty vars
    then none
    else some (record { storage_account = value var_azure_storage_account vars })

unfoldable pub validate_bucket_info : Dict String → String → Result (Unit {0})
unfolding value require fail_if_any
validate_bucket_info vars auth_type =
    fail_if_any "azure bucket info is invalid: %w"
      (require "azure storage account cannot be unset" (value var_azure_storage_account vars))

unfoldable pub credential_to_api : Option AzureCredentialInfo → Dict String
credential_to_api none = []
credential_to_api (some c) =
    (var_azure_access_token, c.access_token) ∷ (var_azure_expiry_timestamp, c.expiry_timestamp) ∷ []

unfoldable pub credential_to_rpc : Dict String → Option AzureCredentialInfo
unfolding value
credential_to_rpc vars =
    if is_empty vars
    then none
    else some (record {
      access_token = value var_azure_access_token vars;
      expiry_timestamp = value var_azure_expiry_timestamp vars;
    })

-- The expiry timestamp is optional.
unfoldable pub validate_credential : Dict String → String → Result (Unit {0})
unfolding value require fail_if_any
validate_credential vars auth_type =
    if auth_type != auth_key
    then ok tt
    else fail_if_any "azure credential info is invalid: %w"
        (require "azure access token cannot be unset" (value var_azure_access_token vars))

-- `AzureBucketInfoTranslator`
unfoldable pub bucket_info_translator : RpcApiTranslator AzureBucketInfo
bucket_info_translator = record {
  api_protocol = protocol_azure;
  rpc_to_api = bucket_info_to_api;
  api_to_rpc = bucket_info_to_rpc;
  validate = validate_bucket_info;
}

-- `AzureCredentialTranslator`
unfoldable pub credential_translator : RpcApiTranslator AzureCredentialInfo
credential_translator = record {
  api_protocol = protocol_azure;
  rpc_to_api = credential_to_api;
  api_to_rpc = credential_to_rpc;
  validate = validate_credential;
}
