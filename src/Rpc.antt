-- ===== src/Rpc.antt =====
-- The messages of proto/cosi.proto that the sidecar exchanges with the driver. A message pointer that
-- may be nil is an `Option`; a proto enum is open, so a number with no name is a value too.
use cosi.Base.{String, ℕ, Option, List}
use cosi.Base.Dict.{Dict}

-- `ObjectProtocol_Type`
pub data ProtocolType : Type 0 where
  unknown_protocol s3 azure gcs : ProtocolType
  unnamed_protocol : ℕ → ProtocolType

-- `S3AddressingStyle_Style`
pub data AddressingStyle : Type 0 where
  unknown_style path virtual : AddressingStyle
  unnamed_style : ℕ → AddressingStyle

-- `AuthenticationType_Type`
pub data AuthenticationType : Type 0 where
  unknown_authentication key service_account : AuthenticationType

-- `AccessMode_Mode`
pub data AccessMode : Type 0 where
  unknown_mode any_mode read_write_mode read_only_mode write_only_mode : AccessMode

pub record S3BucketInfo : Type 0 where
  pub bucket_id : String
  pub endpoint : String
  pub region : String
  pub addressing_style : Option AddressingStyle

pub record AzureBucketInfo : Type 0 where
  pub storage_account : String

pub record GcsBucketInfo : Type 0 where
  pub project_id : String
  pub bucket_name : String

pub record S3CredentialInfo : Type 0 where
  pub access_key_id : String
  pub access_secret_key : String

pub record AzureCredentialInfo : Type 0 where
  pub access_token : String
  pub expiry_timestamp : String

pub record GcsCredentialInfo : Type 0 where
  pub access_id : String
  pub access_secret : String
  pub private_key_name : String
  pub service_account : String

-- `ObjectProtocolAndBucketInfo`
pub record BucketInfo : Type 0 where
  pub s3 : Option S3BucketInfo
  pub azure : Option AzureBucketInfo
  pub gcs : Option GcsBucketInfo

pub record CredentialInfo : Type 0 where
  pub s3 : Option S3CredentialInfo
  pub azure : Option AzureCredentialInfo
  pub gcs : Option GcsCredentialInfo

pub record GenerateBucketIdRequest : Type 0 where
  pub name : String
  pub protocols : List ProtocolType
  pub parameters : Dict String

-- `DriverCreateBucketRequest` and `DriverGetBucketRequest`, which have the same fields.
pub record ProvisionRequest : Type 0 where
  pub bucket_id : String
  pub protocols : List ProtocolType
  pub parameters : Dict String

pub record DeleteBucketRequest : Type 0 where
  pub bucket_id : String
  pub parameters : Dict String

-- `DriverGrantBucketAccessRequest_AccessedBucket`. The modes are never nil where the sidecar sends them.
pub record GrantBucket : Type 0 where
  pub bucket_id : String
  pub object_data_mode : AccessMode
  pub object_metadata_mode : AccessMode
  pub bucket_metadata_mode : AccessMode

-- `DriverGrantBucketAccessRequest`
pub record GrantRequest : Type 0 where
  pub account_name : String
  pub protocol : ProtocolType
  pub authentication_type : AuthenticationType
  pub service_account_name : String
  pub parameters : Dict String
  pub buckets : List GrantBucket

-- `DriverGrantBucketAccessResponse_BucketInfo`
pub record GrantedBucket : Type 0 where
  pub bucket_id : String
  pub bucket_info : Option BucketInfo

-- `DriverGrantBucketAccessResponse`
pub record GrantResponse : Type 0 where
  pub account_id : String
  pub buckets : List GrantedBucket
  pub credentials : Option CredentialInfo

-- `DriverRevokeBucketAccessRequest`, with the bucket IDs of its `Buckets`.
pub record RevokeRequest : Type 0 where
  pub account_id : String
  pub protocol : ProtocolType
  pub authentication_type : AuthenticationType
  pub service_account_name : String
  pub parameters : Dict String
  pub bucket_ids : List String
