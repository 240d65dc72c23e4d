-- ===== src/Prelude/Filtered.antt =====
-- Members of a list that is filtered by a test.
use mathlib.Core.List.{Memᴰ}
use mathlib.Core.List.Memᴰ
use kaede.Prelude.{
  filter, Bool, true, false, List, [], ◌∷◌, ◌≡◌, refl, ap, sym, ◌∙◌, inl, inr, ◌⊎◌, map,
  if◌then◌else◌,
}

module _ {A : Type 0} (p : A → Bool) where
  pub mem-filter : (x : A) (xs : List A) → Memᴰ x (filter p xs) → Memᴰ x xs × (p x ≡ true)
  mem-filter x [] m = absurd (Memᴰ.not-nil m)
  mem-filter x (y ∷ ys) m = go (mem-filter x ys) (p y) refl m
    where
      go :
          (Memᴰ x (filter p ys) → Memᴰ x ys × (p x ≡ true))
          → (b : Bool) → p y ≡ b
          → Memᴰ x (if b then y ∷ filter p ys else filter p ys)
          → Memᴰ x (y ∷ ys) × (p x ≡ true)
      go later false e n = let (k, h) = later n in (Memᴰ.tail k, h)
      go later true e n = elim (Memᴰ.cases_cons n) [
        | inl same ↦ (Memᴰ.head same, ap p same ∙ e)
        | inr k ↦ let (l, h) = later k in (Memᴰ.tail l, h)
      ]

  pub filter-mem : (x : A) (xs : List A) → Memᴰ x xs → p x ≡ true → Memᴰ x (filter p xs)
  filter-mem x [] m h = absurd (Memᴰ.not-nil m)
  filter-mem x (y ∷ ys) m h = go (λ n. filter-mem x ys n h) (p y) refl (Memᴰ.cases_cons m)
    where
      go :
          (Memᴰ x ys → Memᴰ x (filter p ys))
          → (b : Bool) → p y ≡ b
          → (x ≡ y) ⊎ Memᴰ x ys
          → Memᴰ x (if b then y ∷ filter p ys else filter p ys)
      go later true e (inl same) = Memᴰ.head same
      go later true e (inr n) = Memᴰ.tail (later n)
      go later false e (inl same) = absurd (cc)
      go later false e (inr n) = later n

module _ {A B : Type 0} (f : A → B) where
  pub map-mem : (x : A) (xs : List A) → Memᴰ x xs → Memᴰ (f x) (map f xs)
  map-mem x [] m = absurd (Memᴰ.not-nil m)
  map-mem x (y ∷ ys) m = elim (Memᴰ.cases_cons m) [
    | inl e ↦ Memᴰ.head (ap f e)
    | inr n ↦ Memᴰ.tail (map-mem x ys n)
  ]

  pub mem-map : (y : B) (xs : List A) → Memᴰ y (map f xs) → (x : A) × Memᴰ x xs × (f x ≡ y)
  mem-map y [] m = absurd (Memᴰ.not-nil m)
  mem-map y (x ∷ xs) m = elim (Memᴰ.cases_cons m) [
    | inl e ↦ (x, Memᴰ.head refl, sym e)
    | inr n ↦ let (z, k, e) = mem-map y xs n in (z, Memᴰ.tail k, e)
  ]
