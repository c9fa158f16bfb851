-- ===== src/Api/Secrets.antt =====
-- The Secrets that the sidecar fills for the users of a BucketAccess: the parts of `corev1.Secret` that
-- it reads and writes. `stored_data`, its field `Data`, is what the server keeps, and `string_data` is
-- what a write adds to it. What `ctrlutil` and `metav1` make of owner references is a parameter.
use cosi.Base.{String, Bool, List}
use cosi.Base.Dict.{Dict}
use cosi.Errors.{Result}
use cosi.Api.Meta.{ObjectMeta}
use cosi.Api.Accesses.{BucketAccess}

-- `meta.OwnerReference`: the owner's UID, and whether it is the controller.
pub record OwnerReference : Type 0 where
  pub uid : String
  pub controller : Bool

pub record Secret : Type 0 where
  pub metadata : ObjectMeta
  pub owner_references : List OwnerReference
  pub secret_type : String
  pub stored_data : Dict String
  pub string_data : Dict String

-- `corev1.SecretTypeOpaque`
abbrev pub opaque : String
opaque = "Opaque"

-- `ctrlutil.SetControllerReference(access, secret, scheme, WithBlockOwnerDeletion(true))` and
-- `metav1.IsControlledBy(secret, access)`.
pub record Owning : Type 0 where
  pub set_controller_reference : BucketAccess → Secret → Result Secret
  pub is_controlled_by : Secret → BucketAccess → Bool
