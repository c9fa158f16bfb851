-- ===== src/Protocol/Laws.antt =====
-- Round trips of the translators of internal/protocol, and what their validation accepts.
use mathlib.Core.Option
use cosi.Base.{◌≡◌, refl, ◌≢◌, ◌↔◌, ◌⊎◌, String, Option, none, some, arith}
use cosi.Base.{string_discrete, ne_of_test}
use cosi.Base.Dict.{Dict, value}
use cosi.Errors.{ok}
use cosi.Rpc.{AddressingStyle, unknown_style, path, virtual, unnamed_style, S3BucketInfo}
use cosi.Rpc.{ProtocolType}
use cosi.Api.Names.{
  protocol_s3, protocol_azure, protocol_gcs, var_s3_bucket_id, var_s3_endpoint, var_s3_region,
  var_s3_addressing_style,
}
use cosi.Protocol.{protocol_to_api, protocol_to_rpc}
use cosi.Rpc.{
  AzureBucketInfo, GcsBucketInfo, S3CredentialInfo, AzureCredentialInfo, GcsCredentialInfo,
}
use cosi.Protocol.S3
use cosi.Protocol.Azure
use cosi.Protocol.Gcs

-- The two directions of `ObjectProtocolTranslator` are inverse: a protocol has a name exactly when
-- the name is read back as that protocol.
protocol_to_api-iff-to_rpc :
    (p : ProtocolType) (a : String) → (protocol_to_api p ≡ ok a) ↔ (protocol_to_rpc a ≡ ok p)
unfolding protocol_to_api protocol_to_rpc
protocol_to_api-iff-to_rpc p a = ground (
  arith,
  ne_of_test protocol_s3 protocol_azure refl,
  ne_of_test protocol_s3 protocol_gcs refl,
  ne_of_test protocol_azure protocol_gcs refl,
)

-- A bucket info as it comes back: its style is set, and is one of the two styles or unknown.
abbrev pub canonical_style : Option AddressingStyle → AddressingStyle
canonical_style none = unknown_style
canonical_style (some path) = path
canonical_style (some virtual) = virtual
canonical_style (some unknown_style) = unknown_style
canonical_style (some (unnamed_style n)) = unknown_style

abbrev pub canonical : S3BucketInfo → S3BucketInfo
canonical b = record b { addressing_style = some (canonical_style b.addressing_style) }

style_to_rpc-to_api :
    (s : Option AddressingStyle) → S3.style_to_rpc (S3.style_to_api s) ≡ canonical_style s
unfolding string_discrete
style_to_rpc-to_api none = refl
style_to_rpc-to_api (some path) = refl
style_to_rpc-to_api (some virtual) = refl
style_to_rpc-to_api (some unknown_style) = refl
style_to_rpc-to_api (some (unnamed_style n)) = refl

-- S3 bucket info that goes from the driver to a Secret and back is what it was, with the addressing
-- style in canonical form; absent info stays absent.
pub bucket_info_to_rpc-to_api :
    (b : Option S3BucketInfo)
    → S3.bucket_info_to_rpc (S3.bucket_info_to_api b) ≡ Option.map canonical b
unfolding S3.bucket_info_to_rpc S3.bucket_info_to_api string_discrete
bucket_info_to_rpc-to_api none = refl
bucket_info_to_rpc-to_api (some b) = rw (style_to_rpc-to_api b.addressing_style)

-- The S3 info of a Bucket is valid exactly when its bucket ID, endpoint and region are not empty and its
-- addressing style is "path" or "virtual", whatever the authentication type.
validate_bucket_info_iff :
    (vars : Dict String) (auth : String)
    → (S3.validate_bucket_info vars auth ≡ ok tt) ↔ (
        (value var_s3_bucket_id vars ≢ "")
        × (value var_s3_endpoint vars ≢ "")
        × (value var_s3_region vars ≢ "")
        × ((value var_s3_addressing_style vars ≡ "path")
            ⊎ (value var_s3_addressing_style vars ≡ "virtual")))
unfolding S3.validate_bucket_info
validate_bucket_info_iff vars auth = ground arith

azure_info_lem :
    (i : Option AzureBucketInfo) → Azure.bucket_info_to_rpc (Azure.bucket_info_to_api i) ≡ i
unfolding string_discrete Azure.bucket_info_to_rpc Azure.bucket_info_to_api
azure_info_lem none = refl
azure_info_lem (some i) = refl

gcs_info_lem : (i : Option GcsBucketInfo) → Gcs.bucket_info_to_rpc (Gcs.bucket_info_to_api i) ≡ i
unfolding string_discrete Gcs.bucket_info_to_rpc Gcs.bucket_info_to_api
gcs_info_lem none = refl
gcs_info_lem (some i) = refl

s3_credential_lem :
    (i : Option S3CredentialInfo) → S3.credential_to_rpc (S3.credential_to_api i) ≡ i
unfolding string_discrete S3.credential_to_rpc S3.credential_to_api
s3_credential_lem none = refl
s3_credential_lem (some i) = refl

azure_credential_lem :
    (i : Option AzureCredentialInfo) → Azure.credential_to_rpc (Azure.credential_to_api i) ≡ i
unfolding string_discrete Azure.credential_to_rpc Azure.credential_to_api
azure_credential_lem none = refl
azure_credential_lem (some i) = refl

gcs_credential_lem :
    (i : Option GcsCredentialInfo) → Gcs.credential_to_rpc (Gcs.credential_to_api i) ≡ i
unfolding string_discrete Gcs.credential_to_rpc Gcs.credential_to_api
gcs_credential_lem none = refl
gcs_credential_lem (some i) = refl

-- The other infos that the driver sends, and all credentials, come back as they were.
pub to_rpc-to_api :
    (azure : Option AzureBucketInfo) (gcs : Option GcsBucketInfo) (s3 : Option S3CredentialInfo)
    (token : Option AzureCredentialInfo) (account : Option GcsCredentialInfo)
    → (Azure.bucket_info_to_rpc (Azure.bucket_info_to_api azure) ≡ azure)
      × (Gcs.bucket_info_to_rpc (Gcs.bucket_info_to_api gcs) ≡ gcs)
      × (S3.credential_to_rpc (S3.credential_to_api s3) ≡ s3)
      × (Azure.credential_to_rpc (Azure.credential_to_api token) ≡ token)
      × (Gcs.credential_to_rpc (Gcs.credential_to_api account) ≡ account)
to_rpc-to_api azure gcs s3 token account = (
  azure_info_lem azure,
  gcs_info_lem gcs,
  s3_credential_lem s3,
  azure_credential_lem token,
  gcs_credential_lem account,
)
