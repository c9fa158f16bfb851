-- ===== src/Translator/Laws.antt =====
-- What a translated response of the driver is known to hold.
pub mod Credentials
use cosi.Base.{String, Option, none, some, List, [], ◌∷◌, ◌≡◌, refl, ◌≢◌, ◌↔◌, ◌⊎◌, arith}
use cosi.Base.{string_discrete, ne_of_test}
use cosi.Base.Dict.{Dict}
use cosi.Errors.{ok}
use cosi.Rpc.{S3BucketInfo, AzureBucketInfo, GcsBucketInfo}
use cosi.Protocol.{RpcApiTranslator}
use cosi.Translator.{ValidationConfig, translate, merge, bucket_info_to_api}
use cosi.Api.Names.{protocol_s3, protocol_azure, protocol_gcs}
use cosi.Protocol.S3
use cosi.Protocol.Azure
use cosi.Protocol.Gcs

module _ {T : Type 0} (tr : RpcApiTranslator T) (v : ValidationConfig) where
  -- With validation `translate` succeeds in two cases only: the info is of the expected protocol, is
  -- present and passes its own validation; or it is of another protocol and is absent. The
  -- translation is then that of the info, and is empty in the second case.
  translate-eq-ok_iff :
      (info : Option T) (out : Dict String)
      → (translate tr info (some v) ≡ ok out) ↔ (
          ((v.expected_protocol ≡ tr.api_protocol)
            × ((i : T) × (info ≡ some i)
                × (tr.validate (tr.rpc_to_api (some i)) v.authentication_type ≡ ok tt)
                × (out ≡ tr.rpc_to_api (some i))))
          ⊎ (¬ (v.expected_protocol ≡ tr.api_protocol) × (info ≡ none) × (out ≡ [])))
  unfolding translate
  translate-eq-ok_iff none out = ground arith
  translate-eq-ok_iff (some i) out = ground arith

merge-s3 :
    (b : S3BucketInfo) → merge (S3.bucket_info_to_api (some b)) [] ≡ S3.bucket_info_to_api (some b)
unfolding merge S3.bucket_info_to_api string_discrete
merge-s3 b = refl

merge-azure :
    (b : AzureBucketInfo)
    → merge (Azure.bucket_info_to_api (some b)) [] ≡ Azure.bucket_info_to_api (some b)
unfolding merge Azure.bucket_info_to_api string_discrete
merge-azure b = refl

merge-gcs :
    (b : GcsBucketInfo)
    → merge (Gcs.bucket_info_to_api (some b)) [] ≡ Gcs.bucket_info_to_api (some b)
unfolding merge Gcs.bucket_info_to_api string_discrete
merge-gcs b = refl

-- The four ways in which a validated response translates.
abbrev pub IsExpected : ValidationConfig → List String → Dict String → Type 0
IsExpected v protos info =
    ((v.expected_protocol ≡ protocol_s3)
      × (protos ≡ protocol_s3 ∷ [])
      × (S3.validate_bucket_info info v.authentication_type ≡ ok tt))
    ⊎ ((v.expected_protocol ≡ protocol_azure)
        × (protos ≡ protocol_azure ∷ [])
        × (Azure.validate_bucket_info info v.authentication_type ≡ ok tt))
    ⊎ ((v.expected_protocol ≡ protocol_gcs)
        × (protos ≡ protocol_gcs ∷ [])
        × (Gcs.validate_bucket_info info v.authentication_type ≡ ok tt))
    ⊎ ((v.expected_protocol ≢ protocol_s3)
        × (v.expected_protocol ≢ protocol_azure)
        × (v.expected_protocol ≢ protocol_gcs)
        × (protos ≡ [])
        × (info ≡ []))

-- Where validation is configured and the response translates, it is a response for the expected
-- protocol alone, and the info map passes that protocol's validation; or the expected protocol is not
-- known, and the response and the map are empty.
pub bucket_info_to_api-IsExpected :
    (s3 : Option S3BucketInfo) (azure : Option AzureBucketInfo) (gcs : Option GcsBucketInfo)
    (v : ValidationConfig) (protos : List String) (info : Dict String)
    → bucket_info_to_api (some (record { s3 = s3; azure = azure; gcs = gcs })) (some v)
      ≡ ok (protos, info)
    → IsExpected v protos info
unfolding bucket_info_to_api
bucket_info_to_api-IsExpected none none none v protos info h = ground arith
bucket_info_to_api-IsExpected (some b) none none v protos info h = ground (arith, merge-s3 b)
bucket_info_to_api-IsExpected none (some b) none v protos info h = ground (arith, merge-azure b)
bucket_info_to_api-IsExpected none none (some b) v protos info h = ground (arith, merge-gcs b)
bucket_info_to_api-IsExpected s3 azure gcs v protos info h = ground (
  arith,
  ne_of_test protocol_s3 protocol_azure refl,
  ne_of_test protocol_s3 protocol_gcs refl,
  ne_of_test protocol_azure protocol_gcs refl,
)
