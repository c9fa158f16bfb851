-- ===== src/Sidecar/BucketAccessReconciler/Progress.antt =====
-- An access that is being deleted is handed back to the controller where the API server and the driver
-- cooperate.
use cosi.Base.{true, false, ◌≡◌, ◌⊎◌}
use cosi.Base.Dict.{has}
use cosi.Errors.{Reason, not_found, already_exists, other_reason, ok}
use cosi.Api.Names.{sidecar_cleanup_finished}
use cosi.Api.Accesses.{BucketAccess}
use cosi.Handoff.{managed_by_sidecar}
use cosi.Effects.{Call, Reply, done, failed}
use cosi.Effects.Progress.{Assumption}
use cosi.Sidecar.AccessConfig.{InternalRevokeAccessConfig, new_internal_revoke_access_config}

abbrev pub IsDone : {K A : Type 0} → Reply K A → Type 0
IsDone (done a) = Unit
IsDone (failed k text) = ⊥

-- The object was read, or does not exist.
abbrev pub IsKnown : {A : Type 0} → Reply Reason A → Type 0
IsKnown (done a) = Unit
IsKnown (failed not_found text) = Unit
IsKnown (failed already_exists text) = ⊥
IsKnown (failed other_reason text) = ⊥

-- Updates of the access succeed and store what they were given, Secrets are read, updated and deleted
-- without errors, and the driver revokes.
abbrev pub Cooperates : Assumption
Cooperates (Call.update_bucket_access a) r = r ≡ done a
Cooperates (Call.update_bucket_access_status a) r = r ≡ done a
Cooperates (Call.get_secret n) r = IsKnown r
Cooperates (Call.update_secret s) r = IsDone r
Cooperates (Call.delete_secret s) r = IsDone r
Cooperates (Call.driver_revoke_bucket_access q) r = IsDone r
Cooperates _ r = Unit

-- The access was not granted, or its revocation can be configured.
abbrev pub IsRevocable : BucketAccess → Type 0
IsRevocable a =
    (a.status.account_id ≡ "")
    ⊎ ((cfg : InternalRevokeAccessConfig) × (new_internal_revoke_access_config a ≡ ok cfg))

-- The controller manages the access, which the sidecar has cleaned up.
abbrev pub IsHandedBack : Unit {0} → BucketAccess → Type 0
IsHandedBack u b =
    (managed_by_sidecar b ≡ false) × (has sidecar_cleanup_finished b.metadata.annotations ≡ true)
