-- ===== src/Base/Action.antt =====
-- A function that may change a state and may fail, such as a method on `&mut self` that gives a
-- `Result`. What was changed before a fault stays changed.
use mathlib.Core.Path.{◌≡◌, refl, ap}
use mathlib.Core.Logic.{◌≢◌}
use bsdroid.Base.Results.{Result, ok, err, ok-injective, err-ok}

abbrev pub Action {ℓ κ μ} : Type ℓ → Type κ → Type μ → Type (ℓ ⊔ κ ⊔ μ)
Action E S A = S → Result E A × S

module _ {ℓ κ μ} {E : Type ℓ} {S : Type κ} {A : Type μ} where
  abbrev pub pure : A → Action E S A
  pure a s = (ok a, s)

  abbrev pub raise : E → Action E S A
  raise e s = (err e, s)

  -- A result that was computed without the state.
  abbrev pub lift : Result E A → Action E S A
  lift r s = (r, s)

module _ {ℓ κ μ ν} {E : Type ℓ} {S : Type κ} {A : Type μ} {B : Type ν} where
  abbrev pub continue : Result E A → (A → Action E S B) → Action E S B
  continue (ok a) f s = f a s
  continue (err e) f s = (err e, s)

  -- The `?` operator.
  infixl 5 ◌>>=◌
  abbrev pub ◌>>=◌ : Action E S A → (A → Action E S B) → Action E S B
  m >>= f = λ s. continue (m s).0 f (m s).1

  -- A chain goes on behind a step that succeeded.
  pub >>=-step :
      (m : Action E S A) (f : A → Action E S B) (s u : S) (a : A)
      → m s ≡ (ok a, u)
      → (m >>= f) s ≡ f a u
  >>=-step m f s u a e = ap (λ (r : Result E A × S). continue r.0 f r.1) e

  -- What a chain that succeeded did.
  pub >>=-ok :
      (m : Action E S A) (f : A → Action E S B) (s t : S) (b : B)
      → (m >>= f) s ≡ (ok b, t)
      → (a : A) × (u : S) × (m s ≡ (ok a, u)) × (f a u ≡ (ok b, t))
  >>=-ok m f s t b e = go (m s) refl e
    where
      go :
          (r : Result E A × S)
          → m s ≡ r
          → continue r.0 f r.1 ≡ (ok b, t)
          → (a : A) × (u : S) × (m s ≡ (ok a, u)) × (f a u ≡ (ok b, t))
      go (ok a, u) e1 e2 = (a, u, e1, e2)
      go (err x, u) e1 e2 = absurd cc

module _ {ℓ κ μ} {E : Type ℓ} {S : Type κ} {A : Type μ} where
  pub lift-ok : (r : Result E A) (s t : S) (b : A) → lift r s ≡ (ok b, t) → (r ≡ ok b) × (s ≡ t)
  lift-ok r s t b e = (ap (λ x. x.0) e, ap (λ x. x.1) e)

  pub pure-ok :
      (a b : A) (s t : S) → ◌≡◌ {A = Result E A × S} (pure a s) (ok b, t) → (a ≡ b) × (s ≡ t)
  pure-ok a b s t e = (ok-injective a b (ap (λ x. x.0) e), ap (λ x. x.1) e)

  pub raise-ok : (x : E) (b : A) (s t : S) → ◌≢◌ {A = Result E A × S} (raise x s) (ok b, t)
  raise-ok x b s t e = err-ok x b (ap (λ r. r.0) e)
