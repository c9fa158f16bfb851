-- ===== src/Api/Accesses.antt =====
-- bucketaccess_types.go and bucketaccessclass_types.go
use cosi.Base.{String, Bool, Option, List, ◌==◌}
use cosi.Base.Dict.{Dict}
use cosi.Api.Meta.{ObjectMeta, TimestampedError}
use cosi.Api.Names.{multiple_buckets}

pub record BucketAccessModes : Type 0 where
  pub object_data : String
  pub object_metadata : String
  pub bucket_metadata : String

pub record BucketClaimAccess : Type 0 where
  pub bucket_claim_name : String
  pub access_modes : BucketAccessModes
  pub access_secret_name : String

pub record BucketAccessSpec : Type 0 where
  pub bucket_claims : List BucketClaimAccess
  pub bucket_access_class_name : String
  pub protocol : String
  pub service_account_name : String

pub record AccessedBucket : Type 0 where
  pub bucket_name : String
  pub bucket_id : String
  pub bucket_claim_name : String

pub record BucketAccessStatus : Type 0 where
  pub ready_to_use : Option Bool
  pub account_id : String
  pub accessed_buckets : List AccessedBucket
  pub driver_name : String
  pub authentication_type : String
  pub parameters : Dict String
  pub error : Option TimestampedError

pub record BucketAccess : Type 0 where
  pub metadata : ObjectMeta
  pub spec : BucketAccessSpec
  pub status : BucketAccessStatus

pub record DisallowedBucketAccessModes : Type 0 where
  pub object_data : List String
  pub object_metadata : List String
  pub bucket_metadata : List String

pub record BucketAccessClassSpec : Type 0 where
  pub driver_name : String
  pub authentication_type : String
  pub parameters : Dict String
  pub disallowed_bucket_access_modes : DisallowedBucketAccessModes
  pub multi_bucket_access : String

pub record BucketAccessClass : Type 0 where
  pub metadata : ObjectMeta
  pub spec : BucketAccessClassSpec

unfoldable pub supports_multi_bucket_access : BucketAccessClassSpec → Bool
supports_multi_bucket_access validate = validate.multi_bucket_access == multiple_buckets
