-- ===== src/Sidecar/AccessConfig/Sufficient.antt =====
-- What the controller hands over is enough for the sidecar to configure a grant.
use cosi.Base.{String, true, ◌≡◌, ◌⊎◌}
use cosi.Base.Dict.{Dict, has}
use cosi.Api.Names.{read_only, read_write, write_only}
use cosi.Api.Accesses.{BucketClaimAccess}
use cosi.Handoff.{has_any_access_mode}

-- The mode is none, or one that the API knows.
abbrev pub IsMode : String → Type 0
IsMode m = (m ≡ "") ⊎ (m ≡ read_only) ⊎ (m ≡ read_write) ⊎ (m ≡ write_only)

abbrev pub HasModes : BucketClaimAccess → Type 0
HasModes ref =
    IsMode ref.access_modes.object_data
    × IsMode ref.access_modes.object_metadata
    × IsMode ref.access_modes.bucket_metadata

-- The reference has an ID, and asks for known modes.
abbrev Ready : Dict String → BucketClaimAccess → Type 0
Ready ids ref =
    (has ref.bucket_claim_name ids ≡ true)
    × (has_any_access_mode ref.access_modes ≡ true)
    × HasModes ref
