-- ===== src/Base/Text.antt =====
-- Go's `==` on strings, `if`, and the case lemmas that keep the equation of a computed value.
use Prim.Native.String.{String}
use mathlib.Core.Path.{◌≡◌, refl}
use mathlib.Core.Logic.{ite, dite, ◌⊎◌, inl, inr}
use mathlib.Core.Bool.{Bool, true, false, cond, Bool-discrete}
use text.Mathlib.Text
use text.Mathlib.TextEquality.{eq_iff}

infix 1 if◌then◌else◌
abbrev pub if◌then◌else◌ {ℓ} : {A : Type ℓ} → Bool → A → A → A
if b then x else y = cond b x y

-- Shut in proofs, where a split on `s == t` yields the equation or its negation.
unfoldable pub string_discrete : Discrete String
string_discrete s t =
    dite (Bool-discrete (Text.◌==◌ s t) true) (λ same. yes ((eq_iff s t).0 same))
      (λ differ. no (λ p. differ ((eq_iff s t).1 p)))

infix 50 ◌==◌ ◌!=◌
abbrev pub ◌==◌ : String → String → Bool
s == t = ite (string_discrete s t) true false

abbrev pub ◌!=◌ : String → String → Bool
s != t = ite (string_discrete s t) false true

pub Bool-cases : (b : Bool) → (b ≡ true) ⊎ (b ≡ false)
Bool-cases true = inl refl
Bool-cases false = inr refl

-- Two literals differ: the premise is `refl`.
pub ne_of_test : (s t : String) → Text.◌==◌ s t ≡ false → ¬ (s ≡ t)
ne_of_test s t h e = cc (h, (eq_iff s t).1 e)
