-- ===== src/Errors/Laws.antt =====
-- The collected errors of a loop.
use cosi.Base.{String, List, [], ◌∷◌, ◌++◌, ◌≡◌, refl, arith}
use cosi.Errors.{Error, ok, fail_if_any, settle}

-- A list of errors that has grown is not empty.
pub added : (errs : List Error) (e : Error) → errs ++ e ∷ [] ≡ [] → ⊥
added [] e h = ground arith
added (d ∷ errs) e h = ground arith

pub fail_if_any-ok :
    (format : String) (errs : List Error) → fail_if_any format errs ≡ ok tt → errs ≡ []
unfolding fail_if_any
fail_if_any-ok format [] h = refl
fail_if_any-ok format (e ∷ errs) h = ground arith

pub settle-ok :
    {A : Type 0} (format : String) (a b : A) (errs : List Error)
    → settle format a errs ≡ ok b
    → (errs ≡ []) × (a ≡ b)
unfolding settle
settle-ok format a b [] h = ground arith
settle-ok format a b (e ∷ errs) h = ground arith
