-- ===== src/Api/Names.antt =====
-- The constants of definitions.go, protocols.go and the `*_types.go` files.
use cosi.Base.{String}

abbrev pub protection_finalizer : String
protection_finalizer = "objectstorage.k8s.io/protection"

abbrev pub bucket_claim_being_deleted : String
bucket_claim_being_deleted = "objectstorage.k8.io/bucketclaim-being-deleted"

abbrev pub has_bucket_access_references : String
has_bucket_access_references = "objectstorage.k8s.io/has-bucketaccess-references"

abbrev pub sidecar_cleanup_finished : String
sidecar_cleanup_finished = "objectstorage.k8s.io/sidecar-cleanup-finished"

abbrev pub controller_management_override : String
controller_management_override = "objectstorage.k8s.io/controller-management-override"

abbrev pub protocol_s3 : String
protocol_s3 = "S3"

abbrev pub protocol_azure : String
protocol_azure = "Azure"

abbrev pub protocol_gcs : String
protocol_gcs = "GCS"

abbrev pub retain : String
retain = "Retain"

abbrev pub delete : String
delete = "Delete"

abbrev pub auth_key : String
auth_key = "Key"

abbrev pub auth_service_account : String
auth_service_account = "ServiceAccount"

abbrev pub read_write : String
read_write = "ReadWrite"

abbrev pub read_only : String
read_only = "ReadOnly"

abbrev pub write_only : String
write_only = "WriteOnly"

abbrev pub multiple_buckets : String
multiple_buckets = "MultipleBuckets"

-- The keys of bucket info.
abbrev pub var_s3_bucket_id : String
var_s3_bucket_id = "COSI_S3_BUCKET_ID"

abbrev pub var_s3_endpoint : String
var_s3_endpoint = "COSI_S3_ENDPOINT"

abbrev pub var_s3_region : String
var_s3_region = "COSI_S3_REGION"

abbrev pub var_s3_addressing_style : String
var_s3_addressing_style = "COSI_S3_ADDRESSING_STYLE"

abbrev pub var_azure_storage_account : String
var_azure_storage_account = "COSI_AZURE_STORAGE_ACCOUNT"

abbrev pub var_gcs_project_id : String
var_gcs_project_id = "COSI_GCS_PROJECT_ID"

abbrev pub var_gcs_bucket_name : String
var_gcs_bucket_name = "COSI_GCS_BUCKET_NAME"

-- The keys of credentials.
abbrev pub var_s3_access_key_id : String
var_s3_access_key_id = "COSI_S3_ACCESS_KEY_ID"

abbrev pub var_s3_access_secret_key : String
var_s3_access_secret_key = "COSI_S3_ACCESS_SECRET_KEY"

abbrev pub var_azure_access_token : String
var_azure_access_token = "COSI_AZURE_ACCESS_TOKEN"

abbrev pub var_azure_expiry_timestamp : String
var_azure_expiry_timestamp = "COSI_AZURE_EXPIRY_TIMESTAMP"

abbrev pub var_gcs_access_id : String
var_gcs_access_id = "COSI_GCS_ACCESS_ID"

abbrev pub var_gcs_access_secret : String
var_gcs_access_secret = "COSI_GCS_ACCESS_SECRET"

abbrev pub var_gcs_private_key_name : String
var_gcs_private_key_name = "COSI_GCS_PRIVATE_KEY_NAME"

abbrev pub var_gcs_service_account : String
var_gcs_service_account = "COSI_GCS_SERVICE_ACCOUNT"
