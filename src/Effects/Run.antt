-- ===== src/Effects/Run.antt =====
-- A program against a concrete environment: its result, and the calls with their answers, last first.
use cosi.Base.{List, ◌∷◌}
use cosi.Effects.{Call, Answer, Program, return, call}

-- A call that was answered.
abbrev pub Event : Type 0
Event = (c : Call) × Answer c

-- Something that answers calls, and changes as it does.
pub record Environment : Type 1 where
  pub State : Type 0
  pub answer : State → (c : Call) → Answer c × State

module _ (E : Environment) where
  unfoldable pub run : {A : Type 0} → Program A → E.State → List Event → A × (List Event × E.State)
  run (return a) s h = (a, (h, s))
  run (call c k) s h = let (r, s') = E.answer s c in run (k r) s' ((c, r) ∷ h)
