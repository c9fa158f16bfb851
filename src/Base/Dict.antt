-- ===== src/Base/Dict.antt =====
-- Go maps from strings, as association lists. A nil map is the empty list: it is read alike, and
-- the code makes a map before it writes to a nil one.
use cosi.Base.{String, ◌≡◌, refl, Bool, true, false, Option, none, some, List, [], ◌∷◌, arith}
use cosi.Base.{◌==◌, if◌then◌else◌}

abbrev pub Dict {ℓ} : Type ℓ → Type ℓ
Dict V = List (String × V)

module _ {ℓ} {V : Type ℓ} where
  -- `v, ok := m[k]`
  unfoldable pub lookup : String → Dict V → Option V
  lookup k [] = none
  lookup k ((j, v) ∷ m) = if j == k then some v else lookup k m

  -- `m[k] = v`
  unfoldable pub insert : String → V → Dict V → Dict V
  insert k v [] = (k, v) ∷ []
  insert k v ((j, w) ∷ m) = if j == k then (k, v) ∷ m else (j, w) ∷ insert k v m

  -- `delete(m, k)`
  unfoldable pub erase : String → Dict V → Dict V
  erase k [] = []
  erase k ((j, w) ∷ m) = let rest = erase k m in if j == k then rest else (j, w) ∷ rest

  -- `_, ok := m[k]`
  unfoldable pub has : String → Dict V → Bool
  has k [] = false
  has k ((j, v) ∷ m) = if j == k then true else has k m

  pub lookup-insert :
      (j k : String) (v : V) (m : Dict V)
      → lookup j (insert k v m) ≡ (if k == j then some v else lookup j m)
  unfolding lookup insert
  lookup-insert j k v [] = refl
  lookup-insert j k v ((i, w) ∷ m) = ground (arith, lookup-insert j k v m)

  pub has-insert :
      (j k : String) (v : V) (m : Dict V)
      → has j (insert k v m) ≡ (if k == j then true else has j m)
  unfolding has insert
  has-insert j k v [] = refl
  has-insert j k v ((i, w) ∷ m) = ground (arith, has-insert j k v m)

  pub lookup-erase :
      (j k : String) (m : Dict V) → lookup j (erase k m) ≡ (if k == j then none else lookup j m)
  unfolding lookup erase
  lookup-erase j k [] = ground arith
  lookup-erase j k ((i, w) ∷ m) = ground (arith, lookup-erase j k m)

  pub has-erase :
      (j k : String) (m : Dict V) → has j (erase k m) ≡ (if k == j then false else has j m)
  unfolding has erase
  has-erase j k [] = ground arith
  has-erase j k ((i, w) ∷ m) = ground (arith, has-erase j k m)

  pub has-eq-false : (k : String) (m : Dict V) → has k m ≡ false → lookup k m ≡ none
  unfolding has lookup
  has-eq-false k [] h = refl
  has-eq-false k ((j, v) ∷ m) h = ground (arith, has-eq-false k m)

-- `v := m[k]` of a map to strings: the empty string where the key is missing.
unfoldable pub value : String → Dict String → String
unfolding lookup
value k m = elim (lookup k m) [ none ↦ "" | some v ↦ v ]
