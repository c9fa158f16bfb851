-- ===== src/Tests/Pure.antt =====
-- The theorems on protocols, the translator, the driver's info, ownership and events at concrete data.
use cosi.Sidecar.Connection.{
  Transport, idle, connecting, transient_failure, ready, connect_rpc_and_get_driver_info,
}
use cosi.Sidecar.Connection.Laws.{IsReached, IsDriver, connect_rpc_and_get_driver_info_iff}
use cosi.Base.{
  Bool, String, ◌≡◌, ◌≢◌, ◌↔◌, ◌⊎◌, refl, true, false, none, some, List, [], ◌∷◌, inr,
  string_discrete,
}
use cosi.Base.Dict.{Dict, has}
use cosi.Errors.{ok}
use cosi.Rpc.{ProtocolType, s3, gcs}
use cosi.Api.Names.{protocol_s3}
use cosi.Protocol.S3
use cosi.Protocol.Azure
use cosi.Protocol.Gcs
use cosi.Translator.{credentials_to_api}
use cosi.Translator.Laws.Credentials.{AreExpected, credentials_to_api-AreExpected_iff}
use cosi.Protocol.Laws.{to_rpc-to_api}
use cosi.Rpc.{AzureBucketInfo, GcsBucketInfo}
use cosi.Tests.Data.{s3_keys}
use cosi.Protocol.Laws.{canonical, bucket_info_to_rpc-to_api}
use cosi.Translator.{ValidationConfig, bucket_info_to_api}
use cosi.Translator.Laws.{IsExpected, bucket_info_to_api-IsExpected}
use cosi.Driver.{validate_and_parse_protocols}
use cosi.Driver.Laws.{IsClean, validate_and_parse_protocols_iff}
use cosi.Api.Accesses.{BucketAccess, BucketAccessStatus}
use cosi.Handoff.{managed_by_sidecar, sidecar_requirements_present}
use cosi.Handoff.Laws.{managed_by_sidecar_iff, sidecar_requirements_present_iff}
use cosi.Predicates.{
  create, delete, generic, update, bucket, bucket_access, controller_access_filter,
  sidecar_access_filter, sidecar_bucket_filter,
}
use cosi.Predicates.Laws.{handoff-IsNoticed, Split, access_filters-Split, deletion-IsNoticed}
use cosi.Tests.Data.{named, s3_info, fresh_bucket, doomed_bucket}

bucket_info_to_rpc-to_api_example :
    S3.bucket_info_to_rpc (S3.bucket_info_to_api (some s3_info)) ≡ some (canonical s3_info)
bucket_info_to_rpc-to_api_example = bucket_info_to_rpc-to_api (some s3_info)

abbrev s3_vars : Dict String
s3_vars =
    ("COSI_S3_BUCKET_ID", "photos-1")
    ∷ ("COSI_S3_ENDPOINT", "s3.acme")
    ∷ ("COSI_S3_REGION", "eu")
    ∷ ("COSI_S3_ADDRESSING_STYLE", "virtual")
    ∷ []

s3_vars_are_valid : S3.validate_bucket_info s3_vars "Key" ≡ ok tt
unfolding S3.validate_bucket_info string_discrete
s3_vars_are_valid = refl

abbrev only_s3 : ValidationConfig
only_s3 = record { expected_protocol = protocol_s3; authentication_type = "Key" }

bucket_info_to_api-IsExpected_example : IsExpected only_s3 (protocol_s3 ∷ []) s3_vars
unfolding bucket_info_to_api string_discrete S3.bucket_info_translator S3.bucket_info_to_api
    S3.validate_bucket_info
bucket_info_to_api-IsExpected_example =
    bucket_info_to_api-IsExpected (some s3_info) none none only_s3 (protocol_s3 ∷ []) s3_vars refl

validate_and_parse_protocols_example :
    (validate_and_parse_protocols (s3 ∷ gcs ∷ []) ≡ ok (s3 ∷ gcs ∷ [])) ↔ (
      (◌≢◌ {A = List ProtocolType} (s3 ∷ gcs ∷ []) [])
      × IsClean [] (s3 ∷ gcs ∷ [])
      × (◌≡◌ {A = List ProtocolType} (s3 ∷ gcs ∷ []) (s3 ∷ gcs ∷ [])))
validate_and_parse_protocols_example =
    validate_and_parse_protocols_iff (s3 ∷ gcs ∷ []) (s3 ∷ gcs ∷ [])

abbrev new_status : BucketAccessStatus
new_status = record {
  ready_to_use = none;
  account_id = "";
  accessed_buckets = [];
  driver_name = "";
  authentication_type = "";
  parameters = [];
  error = none;
}

abbrev new_access : BucketAccess
new_access = record {
  metadata = named "app" "reader" "a1";
  spec = record {
    bucket_claims = [];
    bucket_access_class_name = "gold";
    protocol = protocol_s3;
    service_account_name = "";
  };
  status = new_status;
}

abbrev initialized : BucketAccess
initialized = record new_access { status = record new_status { driver_name = "acme.objects" } }

managed_by_sidecar_example : (managed_by_sidecar initialized ≡ true) ↔ (
    (has "objectstorage.k8s.io/controller-management-override" initialized.metadata.annotations
      ≡ false)
    × (◌≢◌ {A = String} "acme.objects" "")
    × ((initialized.metadata.deletion_timestamp ≡ none)
        ⊎ (has "objectstorage.k8s.io/sidecar-cleanup-finished" initialized.metadata.annotations
            ≡ false)))
managed_by_sidecar_example = managed_by_sidecar_iff initialized

sidecar_requirements_present_example :
    ((sidecar_requirements_present new_status ≡ ok true)
      ↔ ((new_status.accessed_buckets ≢ []) × (◌≢◌ {A = String} "" "") × (◌≢◌ {A = String} "" "")))
    × ((sidecar_requirements_present new_status ≡ ok false) ↔ (
        (new_status.accessed_buckets ≡ []) × (◌≡◌ {A = String} "" "") × (◌≡◌ {A = String} "" "")))
sidecar_requirements_present_example = sidecar_requirements_present_iff new_status

ownership_changes : managed_by_sidecar new_access ≢ managed_by_sidecar initialized
unfolding managed_by_sidecar string_discrete
ownership_changes = cc

handoff-IsNoticed_example :
    ((managed_by_sidecar initialized ≡ true)
      × (sidecar_access_filter "acme.objects"
            (update (bucket_access new_access) (bucket_access initialized))
          ≡ true))
    ⊎ ((managed_by_sidecar initialized ≡ false)
        × (controller_access_filter (update (bucket_access new_access) (bucket_access initialized))
            ≡ true))
handoff-IsNoticed_example = handoff-IsNoticed new_access initialized ownership_changes

access_filters-Split_example :
    Split "acme.objects" initialized (create (bucket_access initialized))
    × Split "acme.objects" initialized (delete (bucket_access initialized))
    × Split "acme.objects" initialized (generic (bucket_access initialized))
access_filters-Split_example = access_filters-Split "acme.objects" initialized

deletion-IsNoticed_example :
    sidecar_bucket_filter "acme.objects" (update (bucket fresh_bucket) (bucket doomed_bucket))
    ≡ true
deletion-IsNoticed_example = deletion-IsNoticed fresh_bucket doomed_bucket (inr (refl, cc))

abbrev azure_info : AzureBucketInfo
azure_info = record { storage_account = "acct" }

abbrev gcs_info : GcsBucketInfo
gcs_info = record { project_id = "p"; bucket_name = "b" }

to_rpc-to_api_example :
    (Azure.bucket_info_to_rpc (Azure.bucket_info_to_api (some azure_info)) ≡ some azure_info)
    × (Gcs.bucket_info_to_rpc (Gcs.bucket_info_to_api (some gcs_info)) ≡ some gcs_info)
    × (S3.credential_to_rpc (S3.credential_to_api (some s3_keys)) ≡ some s3_keys)
    × (Azure.credential_to_rpc (Azure.credential_to_api none) ≡ none)
    × (Gcs.credential_to_rpc (Gcs.credential_to_api none) ≡ none)
to_rpc-to_api_example = to_rpc-to_api (some azure_info) (some gcs_info) (some s3_keys) none none

abbrev for_s3_key : ValidationConfig
for_s3_key = record { expected_protocol = protocol_s3; authentication_type = "Key" }

abbrev s3_key_vars : Dict String
s3_key_vars = S3.credential_to_api (some s3_keys)

translates :
    credentials_to_api (some (record { s3 = some s3_keys; azure = none; gcs = none })) for_s3_key
    ≡ ok s3_key_vars
unfolding credentials_to_api string_discrete S3.credential_to_api Azure.credential_to_api
    Gcs.credential_to_api S3.validate_credential
translates = refl

credentials_to_api-AreExpected_example :
    (credentials_to_api (some (record { s3 = some s3_keys; azure = none; gcs = none })) for_s3_key
      ≡ ok s3_key_vars)
    ↔ AreExpected (some s3_keys) none none for_s3_key s3_key_vars
credentials_to_api-AreExpected_example =
    credentials_to_api-AreExpected_iff (some s3_keys) none none for_s3_key s3_key_vars

abbrev no_check : String → List String
no_check name = []

abbrev one_label : String → List String
one_label name = name ∷ []

abbrev starts : String → String → Bool
starts text part = true

abbrev acme_socket : Transport
acme_socket = record {
  new_client = λ endpoint. ok idle;
  changes = connecting ∷ transient_failure ∷ connecting ∷ ready ∷ [];
  driver_get_info = ok ("acme.objects", s3 ∷ []);
}

connect_rpc_and_get_driver_info_example :
    (connect_rpc_and_get_driver_info no_check one_label starts starts acme_socket "unix:///a.sock"
      ≡ ok (record { name = "acme.objects"; supported_protocols = s3 ∷ [] }))
    ↔ ((starts "unix:///a.sock" "unix://" ≡ true)
        × (starts "unix:///a.sock" ".sock" ≡ true)
        × (acme_socket.new_client "unix:///a.sock" ≡ ok idle)
        × IsReached acme_socket.changes
        × IsDriver no_check one_label starts starts acme_socket.driver_get_info
            (record { name = "acme.objects"; supported_protocols = s3 ∷ [] }))
connect_rpc_and_get_driver_info_example =
    connect_rpc_and_get_driver_info_iff no_check one_label starts starts acme_socket
      "unix:///a.sock" (record { name = "acme.objects"; supported_protocols = s3 ∷ [] })
