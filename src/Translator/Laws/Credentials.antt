-- ===== src/Translator/Laws/Credentials.antt =====
-- What translated credentials are known to hold.
use cosi.Base.{String, Option, none, some, [], ◌≡◌, refl, ◌↔◌, ◌≢◌, arith}
use cosi.Base.{string_discrete, ne_of_test}
use cosi.Base.Dict.{Dict}
use cosi.Errors.{ok}
use cosi.Rpc.{S3CredentialInfo, AzureCredentialInfo, GcsCredentialInfo}
use cosi.Translator.{ValidationConfig, merge, credentials_to_api}
use cosi.Api.Names.{protocol_s3, protocol_azure, protocol_gcs}
use cosi.Protocol.S3
use cosi.Protocol.Azure
use cosi.Protocol.Gcs

merge-s3_credential :
    (b : S3CredentialInfo)
    → merge (S3.credential_to_api (some b)) [] ≡ S3.credential_to_api (some b)
unfolding merge S3.credential_to_api string_discrete
merge-s3_credential b = refl

merge-azure_credential :
    (b : AzureCredentialInfo)
    → merge (Azure.credential_to_api (some b)) [] ≡ Azure.credential_to_api (some b)
unfolding merge Azure.credential_to_api string_discrete
merge-azure_credential b = refl

merge-gcs_credential :
    (b : GcsCredentialInfo)
    → merge (Gcs.credential_to_api (some b)) [] ≡ Gcs.credential_to_api (some b)
unfolding merge Gcs.credential_to_api string_discrete
merge-gcs_credential b = refl

differ :
    (protocol_s3 ≢ protocol_azure) × (protocol_s3 ≢ protocol_gcs) × (protocol_azure ≢ protocol_gcs)
differ = (
  ne_of_test protocol_s3 protocol_azure refl,
  ne_of_test protocol_s3 protocol_gcs refl,
  ne_of_test protocol_azure protocol_gcs refl,
)

-- The responses whose credentials translate, and to what.
abbrev pub AreExpected :
    Option S3CredentialInfo
    → Option AzureCredentialInfo
    → Option GcsCredentialInfo
    → ValidationConfig
    → Dict String
    → Type 0
AreExpected (some b) none none v vars =
    (v.expected_protocol ≡ protocol_s3)
    × (vars ≡ S3.credential_to_api (some b))
    × (S3.validate_credential (S3.credential_to_api (some b)) v.authentication_type ≡ ok tt)
AreExpected none (some b) none v vars =
    (v.expected_protocol ≡ protocol_azure)
    × (vars ≡ Azure.credential_to_api (some b))
    × (Azure.validate_credential (Azure.credential_to_api (some b)) v.authentication_type ≡ ok tt)
AreExpected none none (some b) v vars =
    (v.expected_protocol ≡ protocol_gcs)
    × (vars ≡ Gcs.credential_to_api (some b))
    × (Gcs.validate_credential (Gcs.credential_to_api (some b)) v.authentication_type ≡ ok tt)
AreExpected none none none v vars =
    (v.expected_protocol ≢ protocol_s3)
    × (v.expected_protocol ≢ protocol_azure)
    × (v.expected_protocol ≢ protocol_gcs)
    × (vars ≡ [])
AreExpected s3 azure gcs v vars = ⊥

-- The credentials in a response translate exactly where the response holds those of the expected
-- protocol and of no other, and these pass its validation for the configured authentication type; the
-- translation is then that of these credentials and nothing else. Or the expected protocol is not
-- known and the response holds none, and so does the translation.
pub credentials_to_api-AreExpected_iff :
    (s3 : Option S3CredentialInfo) (azure : Option AzureCredentialInfo)
    (gcs : Option GcsCredentialInfo) (v : ValidationConfig) (vars : Dict String)
    → (credentials_to_api (some (record { s3 = s3; azure = azure; gcs = gcs })) v ≡ ok vars)
      ↔ AreExpected s3 azure gcs v vars
unfolding credentials_to_api
credentials_to_api-AreExpected_iff none none none v vars = ground (arith, differ)
credentials_to_api-AreExpected_iff (some b) none none v vars =
    ground (arith, differ, merge-s3_credential b)
credentials_to_api-AreExpected_iff none (some b) none v vars =
    ground (arith, differ, merge-azure_credential b)
credentials_to_api-AreExpected_iff none none (some b) v vars =
    ground (arith, differ, merge-gcs_credential b)
credentials_to_api-AreExpected_iff s3 azure gcs v vars = ground (arith, differ)
