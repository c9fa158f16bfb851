-- ===== src/Base/Lists.antt =====
-- Slices: emptiness, membership, finalizers.
use cosi.Base.{◌↔◌, String, ℕ, suc, ◌≡◌, refl, Bool, true, false, List, [], ◌∷◌, ◌++◌, arith}
use cosi.Base.{◌==◌, if◌then◌else◌, ◌||◌}

module _ {ℓ} {A : Type ℓ} where
  abbrev pub length : List A → ℕ
  length [] = 0
  length (x ∷ xs) = suc (length xs)

  -- `len(xs) == 0`
  abbrev pub is_empty : List A → Bool
  is_empty [] = true
  is_empty (x ∷ xs) = false

  abbrev pub All {κ} : (A → Type κ) → List A → Type κ
  All P [] = Unit
  All P (x ∷ xs) = P x × All P xs

  pub All-both {κ} :
      (P Q : A → Type κ) (xs : List A) → All P xs → All Q xs → All (λ x. P x × Q x) xs
  All-both P Q [] p q = tt
  All-both P Q (x ∷ xs) p q = ((p.0, q.0), All-both P Q xs (p.1) (q.1))

  pub is_empty-append : (xs : List A) (y : A) → is_empty (xs ++ y ∷ []) ≡ false
  is_empty-append [] y = refl
  is_empty-append (x ∷ xs) y = refl

-- `slices.Contains(xs, x)`
unfoldable pub contains : List String → String → Bool
contains [] x = false
contains (y ∷ ys) x = y == x || contains ys x

-- Without every occurrence of `x`.
unfoldable pub remove : String → List String → List String
remove x [] = []
remove x (y ∷ ys) = let rest = remove x ys in if y == x then rest else y ∷ rest

pub contains-append_self : (xs : List String) (x : String) → contains (xs ++ x ∷ []) x ≡ true
unfolding contains
contains-append_self [] x = ground arith
contains-append_self (y ∷ ys) x = ground (arith, contains-append_self ys x)

pub contains-remove :
    (x y : String) (xs : List String)
    → contains (remove x xs) y ≡ (if x == y then false else contains xs y)
unfolding contains remove
contains-remove x y [] = ground arith
contains-remove x y (z ∷ zs) = ground (arith, contains-remove x y zs)

-- An appended list is empty where both parts are.
pub append-empty_iff : {A : Type 0} (xs ys : List A) → (xs ++ ys ≡ []) ↔ ((xs ≡ []) × (ys ≡ []))
append-empty_iff [] ys = ground arith
append-empty_iff (x ∷ xs) ys = ground arith
