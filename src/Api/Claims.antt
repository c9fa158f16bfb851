-- ===== src/Api/Claims.antt =====
-- bucketclaim_types.go
use cosi.Base.{String, Bool, Option, List}
use cosi.Api.Meta.{ObjectMeta, TimestampedError}

pub record BucketClaimSpec : Type 0 where
  pub bucket_class_name : String
  pub protocols : List String
  pub existing_bucket_name : String

pub record BucketClaimStatus : Type 0 where
  pub bound_bucket_name : String
  pub ready_to_use : Option Bool
  pub protocols : List String
  pub error : Option TimestampedError

pub record BucketClaim : Type 0 where
  pub metadata : ObjectMeta
  pub spec : BucketClaimSpec
  pub status : BucketClaimStatus
