-- ===== src/Sidecar/BucketId.antt =====
-- `validateBucketID` of sidecar/pkg/reconciler/bucket.go, with its pattern `^[a-zA-Z0-9/._-]+$`.
pub mod Laws
use Prim.Native.Char.{code}
use Prim.Native.String.{len}
use mathlib.Core.Logic.{ite}
use native.Mathlib.Decide.{dec_lt, dec_le, ℕ_discrete}
use cosi.Base.{String, ℕ, Bool, true, false, List, [], ◌∷◌, ◌++◌, ◌&&◌, ◌||◌}
use cosi.Base.{if◌then◌else◌}
use cosi.Errors.{errorf, Result, ok, err}

abbrev max_length : ℕ
max_length = 2048

abbrev between : ℕ → ℕ → ℕ → Bool
between lo hi c = ite (dec_le lo c) (ite (dec_le c hi) true false) false

-- A character of the class `[a-zA-Z0-9/._-]`.
unfoldable pub in_class : ℕ → Bool
in_class c =
    between b'a' b'z' c
    || (between b'A' b'Z' c
        || (between b'0' b'9' c
            || (ite (ℕ_discrete c b'/') true false
                || (ite (ℕ_discrete c b'.') true false
                    || (ite (ℕ_discrete c b'_') true false
                        || ite (ℕ_discrete c b'-') true false)))))

unfoldable pub all_in_class : String → Bool
all_in_class String.[] = true
all_in_class (String.◌∷◌ c s) = in_class (code c) && all_in_class s

-- `bucketIDPattern.MatchString`
unfoldable pub matches_pattern : String → Bool
matches_pattern String.[] = false
matches_pattern (String.◌∷◌ c s) = in_class (code c) && all_in_class s

unfoldable pub too_long : String → List String
unfolding dec_lt
too_long id =
    if ite (dec_lt max_length (len id)) true false
    then "must be no more than %d characters: length=%d" ∷ []
    else []

unfoldable pub unmatched : String → List String
unmatched id = if matches_pattern id then [] else "must match pattern %q" ∷ []

-- The error of a list of problems, if any.
abbrev invalid_id : String → List String → Result (Unit {0})
invalid_id id [] = ok tt
invalid_id id (e ∷ es) = err (errorf "bucket ID %q is invalid: %v" (id ∷ e ∷ es))

-- `validateBucketID`. The numbers and the pattern that its messages repeat are left out.
unfoldable pub validate_bucket_id : String → Result (Unit {0})
unfolding too_long unmatched
validate_bucket_id id = invalid_id id (too_long id ++ unmatched id)
