-- ===== src/Effects/Safety.antt =====
-- Statements about every run of a program: whatever the answers, each call is one that the calls
-- before it allow, and the result fits them.
use cosi.Base.{Bool, true, false, if◌then◌else◌, List, [], ◌∷◌, ◌≡◌, refl}
use cosi.Errors.{Result, ok, err}
use cosi.Effects.{Call, Answer, Program, return, call, bind, Method, after, ◌>>=◌}
use cosi.Effects.Run.{Event, Environment, run}

-- What a call may follow.
abbrev pub Policy : Type 1
Policy = List Event → Call → Type 0

-- What holds of a method's value and object where it returns no error.
abbrev pub Post :
    {S A : Type 0} → (List Event → A → S → Type 0) → List Event → Result A × S → Type 0
Post R g (ok a, s) = R g a s
Post R g (err e, s) = Unit

module _ (P : Policy) where
  abbrev pub Safe : {A : Type 0} → (List Event → A → Type 0) → List Event → Program A → Type 0
  Safe Q h (return a) = Q h a
  Safe Q h (call c k) = P h c × ((r : Answer c) → Safe Q ((c, r) ∷ h) (k r))

  pub Safe-bind :
      {A B : Type 0} (Q : List Event → B → Type 0) (h : List Event) (m : Program A)
      (f : A → Program B)
      → Safe (λ g a. Safe Q g (f a)) h m
      → Safe Q h (bind m f)
  Safe-bind Q h (return a) f s = s
  Safe-bind Q h (call c k) f s = (s.0, λ r. Safe-bind Q ((c, r) ∷ h) (k r) f (s.1 r))

  pub Safe-weaken :
      {A : Type 0} {Q R : List Event → A → Type 0} (h : List Event) (m : Program A)
      → ((g : List Event) (a : A) → Q g a → R g a)
      → Safe Q h m
      → Safe R h m
  Safe-weaken h (return a) w s = w h a s
  Safe-weaken h (call c k) w s = (s.0, λ r. Safe-weaken ((c, r) ∷ h) (k r) w (s.1 r))

  pub Safe-if :
      {A : Type 0} (Q : List Event → A → Type 0) (h : List Event) (b : Bool) (m n : Program A)
      → (b ≡ true → Safe Q h m)
      → (b ≡ false → Safe Q h n)
      → Safe Q h (if b then m else n)
  Safe-if Q h true m n t f = t refl
  Safe-if Q h false m n t f = f refl

  module _ {S A B : Type 0} (R : List Event → A → S → Type 0)
      (T : List Event → B → S → Type 0) where
    after-Safe :
        (f : A → Method S B) (g : List Event) (p : Result A × S)
        → ((g : List Event) (a : A) (s : S) → R g a s → Safe (Post T) g (f a s))
        → Post R g p
        → Safe (Post T) g (after f p)
    after-Safe f g (ok a, s) k r = k g a s r
    after-Safe f g (err e, s) k r = tt

    -- Two methods in sequence: the second starts where the first returned no error.
    pub Safe-seq :
        (m : Method S A) (f : A → Method S B) (h : List Event) (s : S)
        → Safe (Post R) h (m s)
        → ((g : List Event) (a : A) (s' : S) → R g a s' → Safe (Post T) g (f a s'))
        → Safe (Post T) h ((m >>= f) s)
    Safe-seq m f h s p k =
        Safe-bind (Post T) h (m s) (after f) (Safe-weaken h (m s) (λ g q. after-Safe f g q k) p)

  -- Every call of a history was allowed where it was made.
  abbrev pub Obeys : List Event → Type 0
  Obeys [] = Unit
  Obeys ((c, r) ∷ h) = P h c × Obeys h

  -- A safe program, run in any environment, makes allowed calls only, and ends with a fitting result.
  pub run-Obeys :
      (E : Environment) {A : Type 0} (Q : List Event → A → Type 0) (m : Program A) (s : E.State)
      (h : List Event)
      → Safe Q h m
      → Obeys h
      → Obeys (run E m s h).1.0 × Q (run E m s h).1.0 (run E m s h).0
  unfolding run
  run-Obeys E Q (return a) s h q o = (o, q)
  run-Obeys E Q (call c k) s h q o =
      let (r, s') = E.answer s c in run-Obeys E Q (k r) s' ((c, r) ∷ h) (q.1 r) (q.0, o)

  -- Of a run from the start only the calls.
  pub Safe-Obeys :
      (E : Environment) {A : Type 0} (Q : List Event → A → Type 0) (m : Program A) (s : E.State)
      → Safe Q [] m
      → Obeys (run E m s []).1.0
  Safe-Obeys E Q m s q = (run-Obeys E Q m s [] q tt).0
