-- ===== src/Tests/World.antt =====
-- A BucketAccess with its claim, its Bucket and its Secret, and a driver that grants and revokes.
use cosi.Base.{String, Bool, true, false, Option, none, some, List, [], ◌∷◌, ◌==◌}
use cosi.Errors.{not_found, ok}
use cosi.Rpc.{GrantResponse}
use cosi.Api.Buckets.{Bucket}
use cosi.Api.Claims.{BucketClaim}
use cosi.Api.Accesses.{BucketAccess, BucketAccessClass}
use cosi.Api.Secrets.{Secret, OwnerReference, Owning}
use cosi.Api.Meta.{NamespacedName}
use cosi.Effects.{Call, Answer, done, failed}
use cosi.Effects.Run.{Environment}
use cosi.Tests.Data.{named, fresh_bucket, gold, photos_info, s3_keys}
use cosi.Tests.Access.{provisioned_claim, reader, key_class}

abbrev pub World : Type 0
World = record { claim : BucketClaim; access : BucketAccess; secret : Option Secret }

abbrev pub ready_bucket : Bucket
ready_bucket = record fresh_bucket {
  status = record (fresh_bucket.status) { ready_to_use = some true; bucket_id = "acme-1" };
}

abbrev pub keys : BucketAccessClass
keys = record { metadata = named "" "keys" "k2"; spec = key_class }

abbrev pub account : GrantResponse
account = record {
  account_id = "acct-1";
  buckets = record { bucket_id = "acme-1"; bucket_info = some photos_info } ∷ [];
  credentials = some (record { s3 = some s3_keys; azure = none; gcs = none });
}

abbrev pub by_uid : List OwnerReference → String → Bool
by_uid [] uid = false
by_uid (o ∷ os) uid = o.uid == uid

-- The first owner is the controller.
abbrev pub first_owner : Owning
first_owner = record {
  set_controller_reference = λ a s.
      ok (record s { owner_references = record { uid = a.metadata.uid; controller = true } ∷ [] });
  is_controlled_by = λ s a. by_uid s.owner_references a.metadata.uid;
}

abbrev secret_of :
    (s : World) → Answer (Call.get_secret (record { namespace = "app"; name = "keys" })) × World
secret_of s = elim s.secret [ none ↦ (failed not_found "no secret", s) | some t ↦ (done t, s) ]

abbrev answer_world : World → (c : Call) → Answer c × World
answer_world s Call.now = (7, s)
answer_world s (Call.get_bucket n) = (done ready_bucket, s)
answer_world s (Call.update_bucket b) = (done b, s)
answer_world s (Call.update_bucket_status b) = (done b, s)
answer_world s (Call.create_bucket b) = (done b, s)
answer_world s (Call.delete_bucket b) = (done tt, s)
answer_world s (Call.get_bucket_claim n) = (done s.claim, s)
answer_world s (Call.update_bucket_claim c) =
    (done c, record { claim = c; access = s.access; secret = s.secret })
answer_world s (Call.update_bucket_claim_status c) =
    (done c, record { claim = c; access = s.access; secret = s.secret })
answer_world s (Call.get_bucket_class n) = (done gold, s)
answer_world s (Call.driver_generate_bucket_id r) = (done "acme-1", s)
answer_world s (Call.driver_create_bucket r) = (done (some photos_info), s)
answer_world s (Call.driver_get_bucket r) = (done (some photos_info), s)
answer_world s (Call.driver_delete_bucket r) = (done tt, s)
answer_world s Call.order = ([], s)
answer_world s (Call.get_bucket_access n) = (done s.access, s)
answer_world s (Call.update_bucket_access a) =
    (done a, record { claim = s.claim; access = a; secret = s.secret })
answer_world s (Call.update_bucket_access_status a) =
    (done a, record { claim = s.claim; access = a; secret = s.secret })
answer_world s (Call.list_bucket_accesses namespace) = (done (s.access ∷ []), s)
answer_world s (Call.get_bucket_access_class n) = (done keys, s)
answer_world s (Call.get_secret n) = secret_of s
answer_world s (Call.create_secret t) =
    (done t, record { claim = s.claim; access = s.access; secret = some t })
answer_world s (Call.update_secret t) =
    (done t, record { claim = s.claim; access = s.access; secret = some t })
answer_world s (Call.delete_secret t) =
    (done tt, record { claim = s.claim; access = s.access; secret = none })
answer_world s (Call.driver_grant_bucket_access r) = (done account, s)
answer_world s (Call.driver_revoke_bucket_access r) = (done tt, s)

abbrev pub one_access : Environment
one_access = record { State = World; answer = answer_world }

abbrev pub access_request : NamespacedName
access_request = record { namespace = "app"; name = "reader" }

-- The access as its user makes it.
abbrev pub asked : World
asked = record { claim = provisioned_claim; access = reader; secret = none }

-- The access as the controller hands it over.
abbrev pub handed_access : BucketAccess
handed_access = record reader {
  metadata = record (reader.metadata) { finalizers = "objectstorage.k8s.io/protection" ∷ [] };
  status = record (reader.status) {
    ready_to_use = some false;
    accessed_buckets =
        record { bucket_name = "bc-u1"; bucket_id = "acme-1"; bucket_claim_name = "photos" } ∷ [];
    driver_name = "acme.objects";
    authentication_type = "Key";
  };
}

abbrev pub taken : World
taken = record { claim = provisioned_claim; access = handed_access; secret = none }

-- The access after its grant, being deleted.
abbrev pub going_access : BucketAccess
going_access = record handed_access {
  metadata = record (handed_access.metadata) { deletion_timestamp = some 9 };
  status = record (handed_access.status) { ready_to_use = some true; account_id = "acct-1" };
}

abbrev pub own_secret : Secret
own_secret = record {
  metadata = record (named "app" "keys" "s1") {
    finalizers = "objectstorage.k8s.io/protection" ∷ [];
  };
  owner_references = record { uid = "a1"; controller = true } ∷ [];
  secret_type = "Opaque";
  stored_data = [];
  string_data = [];
}

abbrev pub going : World
going = record { claim = provisioned_claim; access = going_access; secret = some own_secret }
