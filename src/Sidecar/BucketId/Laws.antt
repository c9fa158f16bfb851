-- ===== src/Sidecar/BucketId/Laws.antt =====
-- What `validateBucketID` accepts.
use Prim.Native.Char.{Char, code}
use Prim.Native.String.{len}
use cosi.Base.{String, ℕ, true, ◌≡◌, ◌≢◌, ◌⊎◌, ◌↔◌, ◌≤◌, arith}
use cosi.Errors.{ok}
use cosi.Sidecar.BucketId.{
  in_class, all_in_class, matches_pattern, too_long, unmatched, validate_bucket_id,
}

-- The character is a letter, a digit or one of `/._-`.
abbrev pub Allowed : ℕ → Type 0
Allowed c =
    ((97 ≤ c) × (c ≤ 122))
    ⊎ ((65 ≤ c) × (c ≤ 90))
    ⊎ ((48 ≤ c) × (c ≤ 57))
    ⊎ (c ≡ 47)
    ⊎ (c ≡ 46)
    ⊎ (c ≡ 95)
    ⊎ (c ≡ 45)

abbrev pub AllAllowed : String → Type 0
AllAllowed String.[] = Unit
AllAllowed (String.◌∷◌ c s) = Allowed (code c) × AllAllowed s

in_class_iff : (c : ℕ) → (in_class c ≡ true) ↔ Allowed c
unfolding in_class
in_class_iff c = ground arith

all_in_class_iff : (s : String) → (all_in_class s ≡ true) ↔ AllAllowed s
unfolding all_in_class
all_in_class_iff String.[] = ground arith
all_in_class_iff (String.◌∷◌ c s) = ground (arith, in_class_iff (code c), all_in_class_iff s)

cons-≢-[] : (c : Char) (s : String) → String.◌∷◌ c s ≢ ""
cons-≢-[] c s = λ h. cc

matches_pattern_iff : (s : String) → (matches_pattern s ≡ true) ↔ ((s ≢ "") × AllAllowed s)
unfolding matches_pattern
matches_pattern_iff String.[] = ground arith
matches_pattern_iff (String.◌∷◌ c s) =
    ground (arith, in_class_iff (code c), all_in_class_iff s, cons-≢-[] c s)

-- A bucket ID is valid exactly when it is not empty, has 2048 bytes at most and consists of letters,
-- digits and the characters `/._-`.
pub validate_bucket_id_iff :
    (id : String) → (validate_bucket_id id ≡ ok tt) ↔ ((id ≢ "") × AllAllowed id × (len id ≤ 2048))
unfolding validate_bucket_id too_long unmatched
validate_bucket_id_iff id = ground (arith, matches_pattern_iff id)
