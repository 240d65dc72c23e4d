-- ===== src/Exec/Total.antt =====
-- Code that throws from no state, whatever it does to it.
use kaede.Prelude.{◌≡◌, refl, ◌∙◌}
use kaede.Outcome.{ok}
use kaede.Exec.{Exec, pure, attempt, ◌>>=◌, >>=-of-eq}

module _ {S A : Type 0} where
  -- From every state the code comes to a value.
  abbrev pub NeverThrows : Exec S A → Type 0
  NeverThrows m = (s : S) → (a : A) × (t : S) × (m s ≡ (ok a, t))

  pub pure-NeverThrows : (a : A) → NeverThrows (pure a)
  pure-NeverThrows a s = (a, s, refl)

module _ {S A : Type 0} where
  pub attempt-NeverThrows : (m : Exec S A) → NeverThrows (attempt m)
  attempt-NeverThrows m s = let r = m s in (r.0, r.1, refl)

module _ {S A B : Type 0} where
  pub >>=-NeverThrows :
      (m : Exec S A) (f : A → Exec S B)
      → NeverThrows m
      → ((a : A) → NeverThrows (f a))
      → NeverThrows (m >>= f)
  >>=-NeverThrows m f first next s =
      let (a, t, e) = first s in let (b, u, e') = next a t in (b, u, >>=-of-eq m f e ∙ e')
