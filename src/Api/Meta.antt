-- ===== src/Api/Meta.antt =====
-- Object metadata, protected by finalizers, and client/apis/objectstorage/v1alpha2/shared_types.go.
use cosi.Base.{String, ℕ, zero, suc, Bool, true, false, Option, none, some, List, [], ◌∷◌, ◌++◌}
use cosi.Base.{◌==◌, if◌then◌else◌}
use cosi.Base.Dict.{Dict}
use cosi.Base.Lists.{contains, remove}

-- `meta.ObjectMeta`. A deletion timestamp that is nil or zero is `none`.
pub record ObjectMeta : Type 0 where
  pub name : String
  pub namespace : String
  pub uid : String
  pub generation : ℕ
  pub annotations : Dict String
  pub finalizers : List String
  pub deletion_timestamp : Option ℕ

pub record NamespacedName : Type 0 where
  pub namespace : String
  pub name : String

-- `GetDeletionTimestamp().IsZero()`
abbrev pub is_zero : Option ℕ → Bool
is_zero none = true
is_zero (some t) = false

-- `p == nil`
abbrev pub is_none {ℓ} : {A : Type ℓ} → Option A → Bool
is_none none = true
is_none (some a) = false

-- `ptr.Deref(p, false)`
abbrev pub deref_or_false : Option Bool → Bool
deref_or_false none = false
deref_or_false (some b) = b

-- `if p == nil { p = ptr.To(false) }`
abbrev pub or_to_false : Option Bool → Option Bool
or_to_false none = some false
or_to_false (some b) = some b

-- `ctrlutil.AddFinalizer`: the new finalizers, and whether the list changed.
unfoldable pub add_finalizer : String → List String → List String × Bool
unfolding contains
add_finalizer f fs = if contains fs f then (fs, false) else (fs ++ f ∷ [], true)

-- `ctrlutil.RemoveFinalizer`
abbrev pub remove_finalizer : String → List String → List String
remove_finalizer f fs = remove f fs

pub record TimestampedError : Type 0 where
  pub time : Option ℕ
  pub message : Option String

-- The zero time and the empty message are stored as nil.
unfoldable pub new_timestamped_error : ℕ → String → TimestampedError
new_timestamped_error t message = record {
  time = elim t [ zero ↦ none | suc n ↦ some (suc n) ];
  message = if message == "" then none else some message;
}
