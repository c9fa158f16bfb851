-- ===== src/Effects/Frame.antt =====
-- What holds of an object and of the history so far is still known after a method that keeps the
-- object.
use cosi.Base.{List, ◌≡◌, refl, sym}
use mathlib.Core.Path.{subst}
use cosi.Errors.{Result, ok, err}
use cosi.Effects.{Program, Method, keeping, lift, ◌>>=◌}
use cosi.Effects.Run.{Event}
use cosi.Effects.Safety.{Policy, Post, Safe, Safe-bind, Safe-weaken, Safe-seq}
use cosi.Effects.History.{Lasts, Safe-frame}

module _ (P : Policy) {S A : Type 0} where
  -- A call that is no method, as a method.
  pub lift-Safe :
      (R : List Event → A → Type 0) (h : List Event) (p : Program (Result A)) (s : S)
      → Safe P (λ g r. (a : A) → (r ≡ ok a) → R g a) h p
      → Safe P (Post (λ g a s'. (s' ≡ s) × R g a)) h (lift p s)
  lift-Safe R h p s k =
      Safe-bind P (Post (λ g a s'. (s' ≡ s) × R g a)) h p (keeping s)
        (Safe-weaken P h p (λ g. elim [ ok a ↦ λ r. (refl, r a refl) | err e ↦ λ r. tt ]) k)

  framed :
      (K : List Event → Type 0) (R : List Event → A → S → Type 0) (g : List Event)
      (p : Result A × S)
      → K g × Post R g p
      → Post (λ g a s'. K g × R g a s') g p
  framed K R g (ok a, s') q = q
  framed K R g (err e, s') q = tt

module _ (P : Policy) {S A B : Type 0} (K : List Event → Type 0) (last : Lasts K)
    (R : List Event → A → Type 0) (T : List Event → B → S → Type 0) where
  -- A method that keeps the object, and what follows it: what was known is still known.
  pub keep-seq :
      (m : Method S A) (f : A → Method S B) (h : List Event) (s : S)
      → K h
      → Safe P (Post (λ g a s'. (s' ≡ s) × R g a)) h (m s)
      → ((g : List Event) (a : A) → K g → R g a → Safe P (Post T) g (f a s))
      → Safe P (Post T) h ((m >>= f) s)
  keep-seq m f h s k safe then_ =
      Safe-seq P (λ g a s'. K g × ((s' ≡ s) × R g a)) T m f h s
        (Safe-weaken P h (m s) (framed P K (λ g a s'. (s' ≡ s) × R g a))
          (Safe-frame P (Post (λ g a s'. (s' ≡ s) × R g a)) K h (m s) last k safe))
        λ g a s' q. subst (λ t. Safe P (Post T) g (f a t)) (sym (q.1.0)) (then_ g a (q.0) (q.1.1))
