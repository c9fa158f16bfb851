-- ===== src/Handoff/Laws.antt =====
-- Who manages a BucketAccess, and when its status is initialized.
use cosi.Base.{true, false, none, [], ◌≡◌, ◌≢◌, ◌↔◌, ◌⊎◌, arith}
use cosi.Base.Dict.{has}
use cosi.Errors.{ok}
use cosi.Api.Names.{controller_management_override, sidecar_cleanup_finished}
use cosi.Api.Accesses.{BucketAccess, BucketAccessStatus}
use cosi.Handoff.{managed_by_sidecar, sidecar_requirements_present}

-- The sidecar manages an access exactly when the controller has not reclaimed it, its status names a
-- driver, and it is either not being deleted or not yet cleaned up by the sidecar.
pub managed_by_sidecar_iff :
    (ba : BucketAccess)
    → (managed_by_sidecar ba ≡ true) ↔ (
        (has controller_management_override ba.metadata.annotations ≡ false)
        × (ba.status.driver_name ≢ "")
        × ((ba.metadata.deletion_timestamp ≡ none)
            ⊎ (has sidecar_cleanup_finished ba.metadata.annotations ≡ false)))
unfolding managed_by_sidecar
managed_by_sidecar_iff ba = ground arith

-- The requirements are present exactly when all three fields are set, and absent exactly when none
-- is; any other status is an error.
pub sidecar_requirements_present_iff :
    (s : BucketAccessStatus)
    → ((sidecar_requirements_present s ≡ ok true)
        ↔ ((s.accessed_buckets ≢ []) × (s.driver_name ≢ "") × (s.authentication_type ≢ "")))
      × ((sidecar_requirements_present s ≡ ok false)
          ↔ ((s.accessed_buckets ≡ []) × (s.driver_name ≡ "") × (s.authentication_type ≡ "")))
unfolding sidecar_requirements_present
sidecar_requirements_present_iff s = ground arith
