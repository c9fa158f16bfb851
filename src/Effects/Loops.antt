-- ===== src/Effects/Loops.antt =====
-- Loops that make calls: over a slice, and over a Go map in an order that is chosen at each loop.
use cosi.Base.{ℕ, zero, suc, List, [], ◌∷◌, ◌↔◌, arith}
use cosi.Base.Lists.{All}
use cosi.Effects.{Call, Program, return, call, bind}
use cosi.Effects.Run.{Event}
use cosi.Effects.Safety.{Policy, Safe, Safe-bind, Safe-weaken}

module _ {A : Type 0} where
  -- `x` before the `n`-th element, or last.
  unfoldable pub insert_at : ℕ → A → List A → List A
  insert_at zero x xs = x ∷ xs
  insert_at (suc n) x [] = x ∷ []
  insert_at (suc n) x (y ∷ xs) = y ∷ insert_at n x xs

  -- A rearrangement: each choice places the next element among those behind it.
  unfoldable pub rearrange : List ℕ → List A → List A
  unfolding insert_at
  rearrange choices [] = []
  rearrange [] (x ∷ xs) = x ∷ xs
  rearrange (n ∷ choices) (x ∷ xs) = insert_at n x (rearrange choices xs)

  All-insert_at :
      (P : A → Type 0) (n : ℕ) (x : A) (xs : List A) → All P (insert_at n x xs) ↔ (P x × All P xs)
  unfolding insert_at
  All-insert_at P zero x xs = ground arith
  All-insert_at P (suc n) x [] = ground arith
  All-insert_at P (suc n) x (y ∷ xs) = ground (arith, All-insert_at P n x xs)

  -- A loop over a map visits every entry, and nothing else.
  pub All-rearrange :
      (P : A → Type 0) (choices : List ℕ) (xs : List A) → All P (rearrange choices xs) ↔ All P xs
  unfolding rearrange
  All-rearrange P choices [] = ground arith
  All-rearrange P [] (x ∷ xs) = ground arith
  All-rearrange P (n ∷ choices) (x ∷ xs) =
      ground (arith, All-insert_at P n x (rearrange choices xs), All-rearrange P choices xs)

module _ {S A : Type 0} (step : S → A → Program S) where
  -- `for _, x := range xs`, with the loop's variables as its state.
  abbrev pub fold_each : S → List A → Program S
  fold_each s [] = return s
  fold_each s (x ∷ xs) = bind (step s x) (λ t. fold_each t xs)

  -- The same over the entries of a map.
  abbrev pub fold_map : S → List A → Program S
  fold_map s xs = call Call.order λ choices. fold_each s (rearrange choices xs)

module _ (P : Policy) {S A : Type 0} (step : S → A → Program S) (Elem : A → Type 0)
    (I : List Event → List A → S → Type 0)
    (keep : (g : List Event) (x : A) (xs : List A) (s : S)
      → Elem x
      → I g (x ∷ xs) s
      → Safe P (λ g t. I g xs t) g (step s x)) where
  -- An invariant of the loop's variables and of the elements still to come.
  pub fold_each-Safe :
      (g : List Event) (xs : List A) (s : S)
      → All Elem xs
      → I g xs s
      → Safe P (λ g t. I g [] t) g (fold_each step s xs)
  fold_each-Safe g [] s e i = i
  fold_each-Safe g (x ∷ xs) s e i =
      Safe-bind P (λ g t. I g [] t) g (step s x) (λ t. fold_each step t xs)
        (Safe-weaken P g (step s x) (λ g t j. fold_each-Safe g xs t e.1 j) (keep g x xs s e.0 i))
