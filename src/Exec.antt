-- ===== src/Exec.antt =====
-- Code that reads and writes launcher state and may throw. What was written before a throw stays
-- written, so the state comes back beside the error too.
pub mod Total
use mathlib.Core.Path.{◌≡◌, refl, ap}
use kaede.Outcome.{Outcome, ok, throw}

abbrev pub Exec : Type 0 → Type 0 → Type 0
Exec S A = S → Outcome A × S

module _ {S A : Type 0} where
  abbrev pub pure : A → Exec S A
  pure a s = (ok a, s)

  -- a read of the state
  abbrev pub ask : (S → A) → Exec S A
  ask f s = (ok (f s), s)

  abbrev pub lift : Outcome A → Exec S A
  lift r s = (r, s)

  -- `try { await f() } catch`: the outcome as a value
  abbrev pub attempt : Exec S A → Exec S (Outcome A)
  attempt m s = let (r, s') = m s in (ok r, s')

module _ {S A B : Type 0} where
  abbrev pub continue : Outcome A → (A → Exec S B) → Exec S B
  continue (throw e) next s = (throw e, s)
  continue (ok a) next s = next a s

  infixl 10 ◌>>=◌ ◌>>◌
  abbrev pub ◌>>=◌ : Exec S A → (A → Exec S B) → Exec S B
  ◌>>=◌ first next s = let (r, t) = first s in continue r next t

  abbrev pub ◌>>◌ : Exec S A → Exec S B → Exec S B
  first >> second = first >>= λ _. second

abbrev pub modify : {S : Type 0} → (S → S) → Exec S (Unit {0})
modify f s = (ok tt, f s)

module _ {S A B : Type 0} where
  -- Inversion of a successful bind.
  pub >>=-eq-ok :
      (m : Exec S A) (f : A → Exec S B) {b : B} {s s' : S}
      → (m >>= f) s ≡ (ok b, s')
      → (a : A) × (t : S) × (m s ≡ (ok a, t)) × (f a t ≡ (ok b, s'))
  >>=-eq-ok m f {b} {s} {s'} h = go (m s) refl h
    where
      go :
          (p : Outcome A × S)
          → m s ≡ p
          → continue p.0 f p.1 ≡ (ok b, s')
          → (a : A) × (t : S) × (m s ≡ (ok a, t)) × (f a t ≡ (ok b, s'))
      go (ok a, t) e h = (a, t, e, h)
      go (throw x, t) e h = absurd (cc)

  -- A bind whose first step is known.
  pub >>=-of-eq :
      (m : Exec S A) (f : A → Exec S B) {a : A} {s t : S} → m s ≡ (ok a, t) → (m >>= f) s ≡ f a t
  >>=-of-eq m f e = rw e

pub pure_inj :
    {S A : Type 0} (a b : A) (s t : S)
    → ◌≡◌ {A = Outcome A × S} (ok a, s) (ok b, t)
    → (a ≡ b) × (s ≡ t)
pure_inj a b s t h = (cc, cc)

abbrev paired : {A X : Type 0} → Outcome A → X → Outcome (A × X)
paired (ok a) x = ok (a, x)
paired (throw e) x = throw e

-- Run `m` with an object that it may change, and give the object as it is left.
abbrev pub share : {S X A : Type 0} → X → Exec (S × X) A → Exec S (A × X)
share x m s = let (r, t) = m (s, x) in (paired r t.1, t.0)

-- The code ran from some state, and returned the value.
abbrev pub Returned : {S A : Type 0} → Exec S A → A → Type 0
Returned {S} m a = (s : S) × (s' : S) × (m s ≡ (ok a, s'))

pub Returned-of_eq : {S A : Type 0} (m : Exec S A) (a : A) (s : S) → (m s).0 ≡ ok a → Returned m a
Returned-of_eq m a s e = (s, (m s).1, ap (λ r. (r, (m s).1)) e)
