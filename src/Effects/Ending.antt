-- ===== src/Effects/Ending.antt =====
-- How the runs end in which the API server, the driver and the clock answer as assumed, and after
-- which calls.
use cosi.Base.{List, ◌∷◌, arith}
use cosi.Errors.{Result, ok, err}
use cosi.Effects.{Answer, Program, return, call, bind, Method, after, ◌>>=◌}
use cosi.Effects.Run.{Event}
use cosi.Effects.Progress.{Assumption}

-- A method's result is no error, and its value and object fit the calls so far.
abbrev pub Well :
    {S A : Type 0} → (List Event → A → S → Type 0) → List Event → Result A × S → Type 0
Well R h (ok a, s) = R h a s
Well R h (err e, s) = ⊥

module _ (F : Assumption) where
  -- Every run with the assumed answers ends in `Q`, which also speaks of its calls.
  abbrev pub Ends : {A : Type 0} → (List Event → A → Type 0) → List Event → Program A → Type 0
  Ends Q h (return a) = Q h a
  Ends Q h (call c k) = (r : Answer c) → F c r → Ends Q ((c, r) ∷ h) (k r)

  Ends-bind :
      {A B : Type 0} (Q : List Event → B → Type 0) (h : List Event) (m : Program A)
      (f : A → Program B)
      → Ends (λ g a. Ends Q g (f a)) h m
      → Ends Q h (bind m f)
  Ends-bind Q h (return a) f u = u
  Ends-bind Q h (call c k) f u = λ r w. Ends-bind Q ((c, r) ∷ h) (k r) f (u r w)

  Ends-weaken :
      {A : Type 0} {Q R : List Event → A → Type 0} (h : List Event) (m : Program A)
      → ((g : List Event) (a : A) → Q g a → R g a)
      → Ends Q h m
      → Ends R h m
  Ends-weaken h (return a) w u = w h a u
  Ends-weaken h (call c k) w u = λ r f. Ends-weaken ((c, r) ∷ h) (k r) w (u r f)

  module _ {S A B : Type 0} (R : List Event → A → S → Type 0)
      (T : List Event → B → S → Type 0) where
    after-Ends :
        (f : A → Method S B) (g : List Event) (p : Result A × S)
        → ((g : List Event) (a : A) (s : S) → R g a s → Ends (Well T) g (f a s))
        → Well R g p
        → Ends (Well T) g (after f p)
    after-Ends f g (ok a, s) k r = k g a s r
    after-Ends f g (err e, s) k r = ground arith

    -- Two methods in sequence: the second is reached.
    pub Ends-seq :
        (m : Method S A) (f : A → Method S B) (h : List Event) (s : S)
        → Ends (Well R) h (m s)
        → ((g : List Event) (a : A) (s' : S) → R g a s' → Ends (Well T) g (f a s'))
        → Ends (Well T) h ((m >>= f) s)
    Ends-seq m f h s u k =
        Ends-bind (Well T) h (m s) (after f) (Ends-weaken h (m s) (λ g q. after-Ends f g q k) u)
