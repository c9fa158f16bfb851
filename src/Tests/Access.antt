-- ===== src/Tests/Access.antt =====
-- The theorems on the decisions of the controller's BucketAccessReconciler at concrete data.
use cosi.Base.{
  String, Option, true, false, none, some, List, [], ◌∷◌, ◌≡◌, ◌≢◌, ◌↔◌, ◌⊎◌, refl, string_discrete,
}
use cosi.Base.Dict.{Dict, has}
use cosi.Base.Lists.{All}
use cosi.Errors.{ok}
use cosi.Api.Names.{auth_service_account, multiple_buckets}
use cosi.Api.Buckets.{Bucket}
use cosi.Api.Claims.{BucketClaim}
use cosi.Api.Accesses.{
  BucketAccess, BucketAccessSpec, BucketClaimAccess, AccessedBucket, BucketAccessClassSpec,
}
use cosi.Controller.AccessRules.{
  is_multiple, validate_access_against_class, cannot_access_bucket_claims, waiting_on_bucket_claims,
  has_bucket_access_references_to, compile_accessed_buckets,
}
use cosi.Controller.AccessRules.Laws.{
  IsAllowed, Admits, AreCompiled, validate_access_against_class_iff,
  cannot_access_bucket_claims_iff, compile_accessed_buckets-AreCompiled,
}
use cosi.Controller.AccessRules.References.{Spares, has_bucket_access_references_to_iff}
use cosi.Tests.Data.{named, doomed_bucket, photos_claim}

abbrev pub photos_access : BucketClaimAccess
photos_access = record {
  bucket_claim_name = "photos";
  access_modes = record { object_data = "ReadOnly"; object_metadata = ""; bucket_metadata = "" };
  access_secret_name = "keys";
}

abbrev pub reader_spec : BucketAccessSpec
reader_spec = record {
  bucket_claims = photos_access ∷ [];
  bucket_access_class_name = "keys";
  protocol = "S3";
  service_account_name = "";
}

abbrev pub reader : BucketAccess
reader = record {
  metadata = named "app" "reader" "a1";
  spec = reader_spec;
  status = record {
    ready_to_use = none;
    account_id = "";
    accessed_buckets = [];
    driver_name = "";
    authentication_type = "";
    parameters = [];
    error = none;
  };
}

abbrev pub key_class : BucketAccessClassSpec
key_class = record {
  driver_name = "acme.objects";
  authentication_type = "Key";
  parameters = [];
  disallowed_bucket_access_modes = record {
    object_data = "ReadWrite" ∷ [];
    object_metadata = [];
    bucket_metadata = [];
  };
  multi_bucket_access = "";
}

abbrev pub provisioned_claim : BucketClaim
provisioned_claim = record photos_claim {
  status = record (photos_claim.status) { bound_bucket_name = "bc-u1"; ready_to_use = some true };
}

abbrev pub claims : Dict (Option BucketClaim)
claims = ("photos", some provisioned_claim) ∷ []

abbrev pub buckets : Dict (Option Bucket)
buckets = ("photos", some doomed_bucket) ∷ []

validate_access_against_class_example :
    (validate_access_against_class key_class reader_spec ≡ ok tt) ↔ (
      ((◌≢◌ {A = String} "Key" auth_service_account) ⊎ (◌≢◌ {A = String} "" ""))
      × ((◌≡◌ {A = String} "" multiple_buckets) ⊎ (is_multiple (photos_access ∷ []) ≡ false))
      × All (IsAllowed key_class.disallowed_bucket_access_modes) (photos_access ∷ []))
validate_access_against_class_example = validate_access_against_class_iff key_class reader_spec

cannot_access_bucket_claims_example :
    (cannot_access_bucket_claims claims reader_spec ≡ []) ↔ All (Admits "S3") claims
cannot_access_bucket_claims_example = cannot_access_bucket_claims_iff claims reader_spec

compile_accessed_buckets-AreCompiled_example :
    (out : List AccessedBucket) × (compile_accessed_buckets (photos_access ∷ []) buckets ≡ ok out)
    × AreCompiled buckets (photos_access ∷ []) out
unfolding waiting_on_bucket_claims has string_discrete
compile_accessed_buckets-AreCompiled_example =
    compile_accessed_buckets-AreCompiled claims buckets (photos_access ∷ []) refl (refl, tt)

has_bucket_access_references_to_example :
    (has_bucket_access_references_to "photos" (reader ∷ []) "reader" ≡ false)
    ↔ All (Spares "photos" "reader") (reader ∷ [])
has_bucket_access_references_to_example =
    has_bucket_access_references_to_iff "photos" (reader ∷ []) "reader"
