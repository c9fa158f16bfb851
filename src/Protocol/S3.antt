-- ===== src/Protocol/S3.antt =====
-- internal/protocol/s3.go
use cosi.Base.{String, Option, none, some, List, [], ◌∷◌, ◌++◌, ◌==◌, ◌!=◌, if◌then◌else◌}
use cosi.Base.Dict.{Dict, value}
use cosi.Base.Lists.{is_empty, contains}
use cosi.Errors.{Error, errorf, Result, ok, fail_if_any}
use cosi.Rpc.{AddressingStyle, unknown_style, path, virtual, unnamed_style}
use cosi.Rpc.{S3BucketInfo, S3CredentialInfo}
use cosi.Api.Names.{
  protocol_s3, auth_key, var_s3_bucket_id, var_s3_endpoint, var_s3_region, var_s3_addressing_style,
  var_s3_access_key_id, var_s3_access_secret_key,
}
use cosi.Protocol.{RpcApiTranslator, require}

abbrev pub style_path : String
style_path = "path"

abbrev pub style_virtual : String
style_virtual = "virtual"

abbrev pub valid_addressing_styles : List String
valid_addressing_styles = style_path ∷ style_virtual ∷ []

-- The addressing style as a map value: empty unless it is one of the two.
abbrev pub style_to_api : Option AddressingStyle → String
style_to_api none = ""
style_to_api (some path) = style_path
style_to_api (some virtual) = style_virtual
style_to_api (some unknown_style) = ""
style_to_api (some (unnamed_style n)) = ""

abbrev pub style_to_rpc : String → AddressingStyle
style_to_rpc s =
    if s == style_path then path else if s == style_virtual then virtual else unknown_style

unfoldable pub bucket_info_to_api : Option S3BucketInfo → Dict String
bucket_info_to_api none = []
bucket_info_to_api (some b) =
    (var_s3_bucket_id, b.bucket_id)
    ∷ (var_s3_endpoint, b.endpoint)
    ∷ (var_s3_region, b.region)
    ∷ (var_s3_addressing_style, style_to_api b.addressing_style)
    ∷ []

unfoldable pub bucket_info_to_rpc : Dict String → Option S3BucketInfo
unfolding value
bucket_info_to_rpc vars =
    if is_empty vars
    then none
    else some (record {
      bucket_id = value var_s3_bucket_id vars;
      endpoint = value var_s3_endpoint vars;
      region = value var_s3_region vars;
      addressing_style = some (style_to_rpc (value var_s3_addressing_style vars));
    })

unfoldable pub require_style : String → List Error
unfolding contains
require_style s =
    if contains valid_addressing_styles s
    then []
    else errorf "S3 addressing style %q must be one of %v" (s ∷ valid_addressing_styles) ∷ []

unfoldable pub validate_bucket_info : Dict String → String → Result (Unit {0})
unfolding value require require_style fail_if_any
validate_bucket_info vars auth_type = fail_if_any "S3 bucket info is invalid: %w" (
    require "S3 bucket ID cannot be unset" (value var_s3_bucket_id vars)
    ++ (require "S3 endpoint cannot be unset" (value var_s3_endpoint vars)
        ++ (require "S3 region cannot be unset" (value var_s3_region vars)
            ++ require_style (value var_s3_addressing_style vars))))

unfoldable pub credential_to_api : Option S3CredentialInfo → Dict String
credential_to_api none = []
credential_to_api (some c) =
    (var_s3_access_key_id, c.access_key_id) ∷ (var_s3_access_secret_key, c.access_secret_key) ∷ []

unfoldable pub credential_to_rpc : Dict String → Option S3CredentialInfo
unfolding value
credential_to_rpc vars =
    if is_empty vars
    then none
    else some (record {
      access_key_id = value var_s3_access_key_id vars;
      access_secret_key = value var_s3_access_secret_key vars;
    })

-- Credentials are required only where the authentication type is `Key`.
unfoldable pub validate_credential : Dict String → String → Result (Unit {0})
unfolding value require fail_if_any
validate_credential vars auth_type =
    if auth_type != auth_key
    then ok tt
    else fail_if_any "S3 credential info is invalid: %w" (
        require "S3 access key ID cannot be unset" (value var_s3_access_key_id vars)
        ++ require "S3 access secret key cannot be unset" (value var_s3_access_secret_key vars))

-- `S3BucketInfoTranslator`
unfoldable pub bucket_info_translator : RpcApiTranslator S3BucketInfo
bucket_info_translator = record {
  api_protocol = protocol_s3;
  rpc_to_api = bucket_info_to_api;
  api_to_rpc = bucket_info_to_rpc;
  validate = validate_bucket_info;
}

-- `S3CredentialTranslator`
unfoldable pub credential_translator : RpcApiTranslator S3CredentialInfo
credential_translator = record {
  api_protocol = protocol_s3;
  rpc_to_api = credential_to_api;
  api_to_rpc = credential_to_rpc;
  validate = validate_credential;
}
