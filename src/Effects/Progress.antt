-- ===== src/Effects/Progress.antt =====
-- Statements about the runs in which the API server, the driver and the clock answer as assumed.
use cosi.Base.{arith}
use cosi.Errors.{Result, ok, err}
use cosi.Effects.{Call, Answer, Program, return, call, bind, Method, after, ◌>>=◌}

-- The answers that a call may get.
abbrev pub Assumption : Type 1
Assumption = (c : Call) → Answer c → Type 0

-- A method's result is no error, and its value and object fit.
abbrev pub Must : {S A : Type 0} → (A → S → Type 0) → Result A × S → Type 0
Must R (ok a, s) = R a s
Must R (err e, s) = ⊥

module _ (F : Assumption) where
  -- Every run with the assumed answers ends in `Q`.
  abbrev pub Under : {A : Type 0} → (A → Type 0) → Program A → Type 0
  Under Q (return a) = Q a
  Under Q (call c k) = (r : Answer c) → F c r → Under Q (k r)

  pub Under-bind :
      {A B : Type 0} (Q : B → Type 0) (m : Program A) (f : A → Program B)
      → Under (λ a. Under Q (f a)) m
      → Under Q (bind m f)
  Under-bind Q (return a) f u = u
  Under-bind Q (call c k) f u = λ r w. Under-bind Q (k r) f (u r w)

  pub Under-weaken :
      {A : Type 0} {Q R : A → Type 0} (m : Program A)
      → ((a : A) → Q a → R a)
      → Under Q m
      → Under R m
  Under-weaken (return a) w u = w a u
  Under-weaken (call c k) w u = λ r f. Under-weaken (k r) w (u r f)

  module _ {S A B : Type 0} (R : A → S → Type 0) (T : B → S → Type 0) where
    after-Under :
        (f : A → Method S B) (p : Result A × S)
        → ((a : A) (s : S) → R a s → Under (Must T) (f a s))
        → Must R p
        → Under (Must T) (after f p)
    after-Under f (ok a, s) k r = k a s r
    after-Under f (err e, s) k r = ground arith

    -- Two methods in sequence: the second is reached.
    pub Under-seq :
        (m : Method S A) (f : A → Method S B) (s : S)
        → Under (Must R) (m s)
        → ((a : A) (s' : S) → R a s' → Under (Must T) (f a s'))
        → Under (Must T) ((m >>= f) s)
    Under-seq m f s u k =
        Under-bind (Must T) (m s) (after f) (Under-weaken (m s) (λ q. after-Under f q k) u)
