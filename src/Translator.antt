-- ===== src/Translator.antt =====
-- sidecar/internal/translator/translator.go: driver responses as maps for Secrets and statuses, with
-- validation against the one protocol that was asked for.
pub mod Laws
use cosi.Base.{String, Option, none, some, List, [], ◌∷◌, ◌++◌}
use cosi.Base.{◌==◌, ◌!=◌, if◌then◌else◌}
use cosi.Base.Dict.{Dict, insert}
use cosi.Errors.{Error, errorf, wrapf, settle, Result, ok, err}
use cosi.Rpc.{BucketInfo, CredentialInfo}
use cosi.Rpc.{AuthenticationType, key, service_account}
use cosi.Rpc.{AccessMode, any_mode, read_write_mode, read_only_mode, write_only_mode}
use cosi.Api.Names.{
  protocol_s3, protocol_azure, protocol_gcs, auth_key, auth_service_account, read_write, read_only,
  write_only,
}
use cosi.Protocol.{RpcApiTranslator}
use cosi.Protocol.S3
use cosi.Protocol.Azure
use cosi.Protocol.Gcs

pub record ValidationConfig : Type 0 where
  pub expected_protocol : String
  pub authentication_type : String

-- `translate`. The translators are values, so the test for a nil translator never fires, and the RPC
-- types are pointers; `reflect`'s tests on them are those of `Option`.
unfoldable pub translate :
    {T : Type 0} → RpcApiTranslator T → Option T → Option ValidationConfig → Result (Dict String)
translate tr info none = ok (tr.rpc_to_api info)
translate tr none (some v) =
    if v.expected_protocol != tr.api_protocol
    then ok []
    else err (errorf "missing response for expected %q protocol" (tr.api_protocol ∷ []))
translate tr (some i) (some v) =
    if v.expected_protocol != tr.api_protocol
    then err (
        errorf "received %q protocol response when only %q protocol is expected"
          (tr.api_protocol ∷ v.expected_protocol ∷ []))
    else elim (tr.validate (tr.rpc_to_api (some i)) v.authentication_type) [
      | ok done ↦ ok (tr.rpc_to_api (some i))
      | err e ↦ err e
    ]

-- `MergeApiInfoIntoStringMap`, into a map that is not nil. The keys of `info` differ, so the order in
-- which they are visited does not matter.
unfoldable pub merge : Dict String → Dict String → Dict String
unfolding insert
merge [] target = target
merge ((k, v) ∷ info) target = merge info (insert k v target)

-- The step after each `translate`: a wrapped error is added to `errs`, or the info is merged.
unfoldable pub collect :
    String
    → List String
    → Result (Dict String)
    → List Error × Dict String
    → List Error × Dict String
unfolding merge
collect format args (ok info) (errs, out) = (errs, merge info out)
collect format args (err e) (errs, out) = (errs ++ wrapf format args e ∷ [], out)

-- `if x != nil { protos = append(protos, name) }`
abbrev pub listed : {T : Type 0} → Option T → String → List String
listed none name = []
listed (some x) name = name ∷ []

abbrev pub in_bucket_info : String
in_bucket_info = "errors translating %s bucket info: %w"

-- `BucketInfoToApi`
unfoldable pub bucket_info_to_api :
    Option BucketInfo → Option ValidationConfig → Result (List String × Dict String)
unfolding translate collect settle S3.bucket_info_translator Azure.bucket_info_translator
    Gcs.bucket_info_translator
bucket_info_to_api none v = err (errorf "bucket info response is nil" [])
bucket_info_to_api (some bi) v =
    let protos =
      listed bi.s3 protocol_s3 ++ (listed bi.azure protocol_azure ++ listed bi.gcs protocol_gcs) in
    let with_s3 =
      collect in_bucket_info (protocol_s3 ∷ []) (translate S3.bucket_info_translator bi.s3 v)
        ([], []) in
    let with_azure =
      collect in_bucket_info (protocol_azure ∷ [])
        (translate Azure.bucket_info_translator bi.azure v) with_s3 in
    let with_gcs =
      collect in_bucket_info (protocol_gcs ∷ []) (translate Gcs.bucket_info_translator bi.gcs v)
        with_azure in
    settle "errors translating bucket info: %w" (protos, with_gcs.1) with_gcs.0

-- `CredentialsToApi`, where validation is always configured.
unfoldable pub credentials_to_api : Option CredentialInfo → ValidationConfig → Result (Dict String)
unfolding translate collect settle S3.credential_translator Azure.credential_translator
    Gcs.credential_translator
credentials_to_api none v = err (errorf "credential info is nil" [])
credentials_to_api (some ci) v =
    let with_s3 =
      collect "errors translating S3 bucket credentials: %w" []
        (translate S3.credential_translator ci.s3 (some v)) ([], []) in
    let with_azure =
      collect "errors translating Azure bucket credentials: %w" []
        (translate Azure.credential_translator ci.azure (some v)) with_s3 in
    let with_gcs =
      collect "errors translating GCS bucket credentials: %w" []
        (translate Gcs.credential_translator ci.gcs (some v)) with_azure in
    settle "errors translating access credentials: %w" with_gcs.1 with_gcs.0

-- `AuthenticationTypeToRpc`
unfoldable pub authentication_type_to_rpc : String → Result AuthenticationType
authentication_type_to_rpc a =
    if a == auth_key
    then ok key
    else if a == auth_service_account
    then ok service_account
    else err (errorf "unknown authentication type %q" (a ∷ []))

-- `AccessModeToRpc`. An empty mode was not requested: the driver may grant any.
unfoldable pub access_mode_to_rpc : String → Result AccessMode
access_mode_to_rpc m =
    if m == ""
    then ok any_mode
    else if m == read_only
    then ok read_only_mode
    else if m == read_write
    then ok read_write_mode
    else if m == write_only
    then ok write_only_mode
    else err (errorf "unknown access mode %q" (m ∷ []))
