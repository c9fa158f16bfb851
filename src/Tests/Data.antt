-- ===== src/Tests/Data.antt =====
-- Objects and environments for the tests.
use cosi.Base.{String, true, none, some, Option, [], ◌∷◌}
use cosi.Errors.{Error, errorf, not_found, other_reason, unavailable}
use cosi.Rpc.{S3CredentialInfo, s3, gcs, S3BucketInfo, BucketInfo, virtual}
use cosi.Api.Meta.{ObjectMeta, NamespacedName}
use cosi.Api.Names.{protocol_s3, delete}
use cosi.Api.Buckets.{Bucket, BucketSpec, BucketClaimReference, BucketClass, empty_bucket_status}
use cosi.Api.Claims.{BucketClaim}
use cosi.Driver.{DriverInfo}
use cosi.Effects.{Call, Answer, done, failed}
use cosi.Effects.Run.{Environment}

abbrev pub named : String → String → String → ObjectMeta
named namespace name uid = record {
  name = name;
  namespace = namespace;
  uid = uid;
  generation = 1;
  annotations = [];
  finalizers = [];
  deletion_timestamp = none;
}

abbrev pub acme : DriverInfo
acme = record { name = "acme.objects"; supported_protocols = s3 ∷ gcs ∷ [] }

abbrev pub show : Error → String
show e = "an error"

abbrev pub photos_ref : BucketClaimReference
photos_ref = record { name = "photos"; namespace = "app"; uid = "u1" }

abbrev pub photos_spec : BucketSpec
photos_spec = record {
  driver_name = "acme.objects";
  deletion_policy = delete;
  parameters = [];
  protocols = protocol_s3 ∷ [];
  bucket_claim_ref = photos_ref;
  existing_bucket_id = "";
}

-- A Bucket as the controller makes it for the claim `photos`.
abbrev pub fresh_bucket : Bucket
fresh_bucket = record {
  metadata = named "" "bc-u1" "b1";
  spec = photos_spec;
  status = empty_bucket_status;
}

-- The same Bucket, provisioned and then marked for deletion.
abbrev pub doomed_bucket : Bucket
doomed_bucket = record fresh_bucket {
  metadata = record (fresh_bucket.metadata) {
    annotations = ("objectstorage.k8.io/bucketclaim-being-deleted", "") ∷ [];
    finalizers = "objectstorage.k8s.io/protection" ∷ [];
    deletion_timestamp = some 9;
  };
  status = record empty_bucket_status { ready_to_use = some true; bucket_id = "acme-1" };
}

abbrev pub s3_info : S3BucketInfo
s3_info = record {
  bucket_id = "photos-1";
  endpoint = "s3.acme";
  region = "eu";
  addressing_style = some virtual;
}

abbrev pub photos_info : BucketInfo
photos_info = record { s3 = some s3_info; azure = none; gcs = none }

abbrev pub bucket_request : NamespacedName
bucket_request = record { namespace = ""; name = "bc-u1" }

-- One Bucket, and a driver that does what it is asked.
abbrev answer_bucket : Bucket → (c : Call) → Answer c × Bucket
answer_bucket s Call.now = (7, s)
answer_bucket s (Call.get_bucket n) = (done s, s)
answer_bucket s (Call.update_bucket b) = (done b, b)
answer_bucket s (Call.update_bucket_status b) = (done b, b)
answer_bucket s (Call.driver_generate_bucket_id r) = (done "acme-1", s)
answer_bucket s (Call.driver_create_bucket r) = (done (some photos_info), s)
answer_bucket s (Call.driver_get_bucket r) = (done (some photos_info), s)
answer_bucket s (Call.driver_delete_bucket r) = (done tt, s)
answer_bucket s (Call.get_bucket_claim n) = (failed not_found "no claim", s)
answer_bucket s (Call.update_bucket_claim c) = (failed not_found "no claim", s)
answer_bucket s (Call.update_bucket_claim_status c) = (failed not_found "no claim", s)
answer_bucket s (Call.create_bucket b) = (failed other_reason "not here", s)
answer_bucket s (Call.delete_bucket b) = (failed other_reason "not here", s)
answer_bucket s (Call.get_bucket_class n) = (failed not_found "no class", s)
answer_bucket s Call.order = ([], s)
answer_bucket s (Call.get_bucket_access n) = (failed not_found "no access", s)
answer_bucket s (Call.update_bucket_access a) = (failed not_found "no access", s)
answer_bucket s (Call.update_bucket_access_status a) = (failed not_found "no access", s)
answer_bucket s (Call.list_bucket_accesses namespace) = (done [], s)
answer_bucket s (Call.get_bucket_access_class n) = (failed not_found "no class", s)
answer_bucket s (Call.get_secret n) = (failed not_found "no secret", s)
answer_bucket s (Call.create_secret t) = (failed other_reason "not here", s)
answer_bucket s (Call.update_secret t) = (failed other_reason "not here", s)
answer_bucket s (Call.delete_secret t) = (failed other_reason "not here", s)
answer_bucket s (Call.driver_grant_bucket_access r) = (failed unavailable "no driver", s)
answer_bucket s (Call.driver_revoke_bucket_access r) = (failed unavailable "no driver", s)

abbrev pub one_bucket : Environment
one_bucket = record { State = Bucket; answer = answer_bucket }

abbrev pub photos_claim : BucketClaim
photos_claim = record {
  metadata = named "app" "photos" "u1";
  spec = record {
    bucket_class_name = "gold";
    protocols = protocol_s3 ∷ [];
    existing_bucket_name = "";
  };
  status = record { bound_bucket_name = ""; ready_to_use = none; protocols = []; error = none };
}

abbrev pub gold : BucketClass
gold = record {
  metadata = named "" "gold" "k1";
  spec = record { driver_name = "acme.objects"; deletion_policy = delete; parameters = [] };
}

abbrev pub claim_request : NamespacedName
claim_request = record { namespace = "app"; name = "photos" }

abbrev pub Cluster : Type 0
Cluster = record { claim : BucketClaim; bucket : Option Bucket }

abbrev bucket_of : (s : Cluster) → Answer (Call.get_bucket bucket_request) × Cluster
bucket_of s = elim s.bucket [ none ↦ (failed not_found "no bucket", s) | some b ↦ (done b, s) ]

-- A claim, its class and perhaps its Bucket.
abbrev answer_cluster : Cluster → (c : Call) → Answer c × Cluster
answer_cluster s Call.now = (7, s)
answer_cluster s (Call.get_bucket n) = bucket_of s
answer_cluster s (Call.update_bucket b) = (done b, record { claim = s.claim; bucket = some b })
answer_cluster s (Call.update_bucket_status b) =
    (done b, record { claim = s.claim; bucket = some b })
answer_cluster s (Call.create_bucket b) = (done b, record { claim = s.claim; bucket = some b })
answer_cluster s (Call.delete_bucket b) = (done tt, record { claim = s.claim; bucket = none })
answer_cluster s (Call.get_bucket_claim n) = (done s.claim, s)
answer_cluster s (Call.update_bucket_claim c) = (done c, record { claim = c; bucket = s.bucket })
answer_cluster s (Call.update_bucket_claim_status c) =
    (done c, record { claim = c; bucket = s.bucket })
answer_cluster s (Call.get_bucket_class n) = (done gold, s)
answer_cluster s (Call.driver_generate_bucket_id r) = (failed unavailable "no driver", s)
answer_cluster s (Call.driver_create_bucket r) = (failed unavailable "no driver", s)
answer_cluster s (Call.driver_get_bucket r) = (failed unavailable "no driver", s)
answer_cluster s (Call.driver_delete_bucket r) = (failed unavailable "no driver", s)
answer_cluster s Call.order = ([], s)
answer_cluster s (Call.get_bucket_access n) = (failed not_found "no access", s)
answer_cluster s (Call.update_bucket_access a) = (failed not_found "no access", s)
answer_cluster s (Call.update_bucket_access_status a) = (failed not_found "no access", s)
answer_cluster s (Call.list_bucket_accesses namespace) = (done [], s)
answer_cluster s (Call.get_bucket_access_class n) = (failed not_found "no class", s)
answer_cluster s (Call.get_secret n) = (failed not_found "no secret", s)
answer_cluster s (Call.create_secret t) = (failed other_reason "not here", s)
answer_cluster s (Call.update_secret t) = (failed other_reason "not here", s)
answer_cluster s (Call.delete_secret t) = (failed other_reason "not here", s)
answer_cluster s (Call.driver_grant_bucket_access r) = (failed unavailable "no driver", s)
answer_cluster s (Call.driver_revoke_bucket_access r) = (failed unavailable "no driver", s)

abbrev pub one_claim : Environment
one_claim = record { State = Cluster; answer = answer_cluster }

-- The claim, being deleted while its Bucket still exists.
abbrev pub leaving : Cluster
leaving = record {
  claim = record photos_claim {
    metadata = record (photos_claim.metadata) {
      finalizers = "objectstorage.k8s.io/protection" ∷ [];
      deletion_timestamp = some 5;
    };
    status = record (photos_claim.status) { bound_bucket_name = "bc-u1" };
  };
  bucket = some fresh_bucket;
}

abbrev pub no_class : Error
no_class = errorf "BucketClaim cannot have empty bucketClassName" []

abbrev pub s3_keys : S3CredentialInfo
s3_keys = record { access_key_id = "AK"; access_secret_key = "SK" }
