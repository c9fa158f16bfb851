-- ===== src/Effects/History.antt =====
-- What the calls of a run so far were: an event that was seen stays seen, and a loop that ends without
-- an error has done for each element what its body does without one.
use cosi.Base.{List, [], ◌∷◌, ◌⊎◌, inl, inr}
use cosi.Base.Lists.{All}
use cosi.Effects.{Call, Program, return, call}
use cosi.Effects.Run.{Event}
use cosi.Effects.Safety.{Policy, Safe, Safe-bind, Safe-weaken}
use cosi.Effects.Loops.{rearrange, All-rearrange, fold_each, fold_map}

-- Some event of the history fits.
abbrev pub Saw : (Event → Type 0) → List Event → Type 0
Saw R [] = ⊥
Saw R (e ∷ h) = R e ⊎ Saw R h

pub Saw-weaken :
    {R T : Event → Type 0} (h : List Event) → ((e : Event) → R e → T e) → Saw R h → Saw T h
Saw-weaken [] w s = s
Saw-weaken (e ∷ h) w s = elim s [ inl r ↦ inl (w e r) | inr t ↦ inr (Saw-weaken h w t) ]

-- The history fitted at some time.
abbrev pub Ever : (List Event → Type 0) → List Event → Type 0
Ever R [] = R []
Ever R (e ∷ h) = R (e ∷ h) ⊎ Ever R h

-- A fact about a history that later calls do not undo.
abbrev pub Lasts : (List Event → Type 0) → Type 0
Lasts K = (e : Event) (h : List Event) → K h → K (e ∷ h)

pub Saw-Lasts : (R : Event → Type 0) → Lasts (Saw R)
Saw-Lasts R e h s = inr s

pub Ever-Lasts : (R : List Event → Type 0) → Lasts (Ever R)
Ever-Lasts R e h s = inr s

pub All-Lasts :
    {A : Type 0} (D : A → List Event → Type 0) (xs : List A)
    → ((x : A) → Lasts (D x))
    → Lasts (λ h. All (λ x. D x h) xs)
All-Lasts D [] l e h a = tt
All-Lasts D (x ∷ xs) l e h a = (l x e h (a.0), All-Lasts D xs l e h (a.1))

module _ (P : Policy) where
  pub Safe-frame :
      {A : Type 0} (Q : List Event → A → Type 0) (K : List Event → Type 0) (h : List Event)
      (m : Program A)
      → Lasts K
      → K h
      → Safe P Q h m
      → Safe P (λ g a. K g × Q g a) h m
  Safe-frame Q K h (return a) l k s = (k, s)
  Safe-frame Q K h (call c m) l k s =
      (s.0, λ r. Safe-frame Q K ((c, r) ∷ h) (m r) l (l (c, r) h k) (s.1 r))

  module _ {S A : Type 0} (step : S → A → Program S) (J : S → Type 0) (D : A → List Event → Type 0)
      (last : (x : A) → Lasts (D x)) where
    -- Where the loop ends well, so did the body for each element; `K` is known all along.
    pub fold_each-Under :
        (K : List Event → Type 0)
        → Lasts K
        → ((g : List Event) (x : A) (s : S) → K g → Safe P (λ g t. J t → J s × D x g) g (step s x))
        → (g : List Event) (xs : List A) (s : S) → K g
        → Safe P (λ g t. J t → J s × All (λ x. D x g) xs) g (fold_each step s xs)
    fold_each-Under K lasts keep g [] s k = λ j. (j, tt)
    fold_each-Under K lasts keep g (x ∷ xs) s k =
        Safe-bind P (λ g t. J t → J s × All (λ y. D y g) (x ∷ xs)) g (step s x)
          (λ t. fold_each step t xs)
          (Safe-weaken P g (step s x)
            (λ g t known.
              Safe-weaken P g (fold_each step t xs)
                (λ g u q j. let (jt, all) = q.1 j in let (js, d) = q.0 jt in (js, (d, all)))
                (Safe-frame (λ g u. J u → J t × All (λ y. D y g) xs) (λ g. J t → J s × D x g) g
                  (fold_each step t xs) (λ e h f j. let (js, d) = f j in (js, last x e h d))
                  (known.1) (fold_each-Under K lasts keep g xs t (known.0))))
            (Safe-frame (λ g t. J t → J s × D x g) K g (step s x) lasts k (keep g x s k)))

    -- The same of a loop over a map, in whichever order.
    pub fold_map-Under :
        (K : List Event → Type 0)
        → Lasts K
        → ((g : List Event) (x : A) (s : S) → K g → Safe P (λ g t. J t → J s × D x g) g (step s x))
        → ((g : List Event) → P g Call.order)
        → (g : List Event) (s : S) (xs : List A) → K g
        → Safe P (λ g t. J t → J s × All (λ x. D x g) xs) g (fold_map step s xs)
    fold_map-Under K lasts keep orders g s xs k = (
      orders g,
      λ choices.
          Safe-weaken P _ (fold_each step s (rearrange choices xs))
            (λ g t k j. let (js, all) = k j in (js, (All-rearrange (λ x. D x g) choices xs).0 all))
            (fold_each-Under K lasts keep _ (rearrange choices xs) s (lasts _ g k)),
    )

    abbrev Nothing : List Event → Type 0
    Nothing g = Unit

    pub fold_each-All :
        ((g : List Event) (x : A) (s : S) → Safe P (λ g t. J t → J s × D x g) g (step s x))
        → (g : List Event) (xs : List A) (s : S)
        → Safe P (λ g t. J t → J s × All (λ x. D x g) xs) g (fold_each step s xs)
    fold_each-All keep g xs s =
        fold_each-Under Nothing (λ e h k. tt) (λ g x s k. keep g x s) g xs s tt

    pub fold_map-All :
        ((g : List Event) (x : A) (s : S) → Safe P (λ g t. J t → J s × D x g) g (step s x))
        → ((g : List Event) → P g Call.order)
        → (g : List Event) (s : S) (xs : List A)
        → Safe P (λ g t. J t → J s × All (λ x. D x g) xs) g (fold_map step s xs)
    fold_map-All keep orders g s xs =
        fold_map-Under Nothing (λ e h k. tt) (λ g x s k. keep g x s) orders g s xs tt
