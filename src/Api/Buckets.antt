-- ===== src/Api/Buckets.antt =====
-- bucket_types.go and bucketclass_types.go
use cosi.Base.{String, Bool, Option, none, List, []}
use cosi.Base.Dict.{Dict}
use cosi.Api.Meta.{ObjectMeta, TimestampedError}

pub record BucketClaimReference : Type 0 where
  pub name : String
  pub namespace : String
  pub uid : String

pub record BucketSpec : Type 0 where
  pub driver_name : String
  pub deletion_policy : String
  pub parameters : Dict String
  pub protocols : List String
  pub bucket_claim_ref : BucketClaimReference
  pub existing_bucket_id : String

pub record BucketStatus : Type 0 where
  pub ready_to_use : Option Bool
  pub bucket_id : String
  pub protocols : List String
  pub bucket_info : Dict String
  pub error : Option TimestampedError

-- `cosiapi.BucketStatus{}`
abbrev pub empty_bucket_status : BucketStatus
empty_bucket_status = record {
  ready_to_use = none;
  bucket_id = "";
  protocols = [];
  bucket_info = [];
  error = none;
}

pub record Bucket : Type 0 where
  pub metadata : ObjectMeta
  pub spec : BucketSpec
  pub status : BucketStatus

pub record BucketClassSpec : Type 0 where
  pub driver_name : String
  pub deletion_policy : String
  pub parameters : Dict String

pub record BucketClass : Type 0 where
  pub metadata : ObjectMeta
  pub spec : BucketClassSpec
