-- ===== src/Handoff.antt =====
-- internal/bucketaccess/bucketaccess.go: whether the controller or the sidecar manages a BucketAccess.
pub mod Laws
use cosi.Base.{String, Bool, true, false, not, List, [], ◌∷◌, ◌++◌, ◌||◌, ◌==◌, ◌!=◌, if◌then◌else◌}
use cosi.Base.Dict.{has}
use cosi.Base.Lists.{is_empty}
use cosi.Errors.{errorf, Result, ok, err}
use cosi.Api.Meta.{is_zero}
use cosi.Api.Names.{controller_management_override, sidecar_cleanup_finished}
use cosi.Api.Accesses.{BucketAccess, BucketAccessModes, BucketAccessStatus}

-- `ManagedBySidecar`
unfoldable pub managed_by_sidecar : BucketAccess → Bool
unfolding has
managed_by_sidecar ba =
    if has controller_management_override ba.metadata.annotations
    then false
    else if ba.status.driver_name == ""
    then false
    else if not (is_zero ba.metadata.deletion_timestamp)
    then not (has sidecar_cleanup_finished ba.metadata.annotations)
    else true

-- `HasAnyAccessMode`
unfoldable pub has_any_access_mode : BucketAccessModes → Bool
has_any_access_mode m = m.object_data != "" || (m.object_metadata != "" || m.bucket_metadata != "")

-- `requiredFieldIsSet`: the name is added to `set` if the field is set.
abbrev pub if_set : String → Bool → List String
if_set name is_set = if is_set then name ∷ [] else []

-- The names of the required fields that are set.
unfoldable fields_set : BucketAccessStatus → List String
fields_set s =
    if_set "status.accessedBuckets" (not (is_empty s.accessed_buckets))
    ++ (if_set "status.driverName" (s.driver_name != "")
        ++ if_set "status.authenticationType" (s.authentication_type != ""))

-- `SidecarRequirementsPresent`: none of the three required fields, all of them, or an error.
unfoldable pub sidecar_requirements_present : BucketAccessStatus → Result Bool
unfolding fields_set
sidecar_requirements_present s = elim (fields_set s) [
  | [] ↦ ok false
  | a ∷ (b ∷ (c ∷ [])) ↦ ok true
  | some_set ↦
      err (errorf "fields required for sidecar provisioning are only partially set: %v" some_set)
]
