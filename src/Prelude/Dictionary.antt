-- ===== src/Prelude/Dictionary.antt =====
-- JavaScript's `Map` with string keys: the entries in the order in which their keys were first set.
use kaede.Prelude.Tests.{if◌then◌else◌}
use Prim.Native.String.{String}
use mathlib.Core.Path.{◌≡◌, refl}
use mathlib.Core.Logic.{◌≢◌}
use mathlib.Core.Option.{Option, none, some}
use mathlib.Core.List.{List, [], ◌∷◌}
use native.Mathlib.Omega.{arith}
use text.Mathlib.Text.{◌==◌}
use text.Mathlib.TextEquality.{eq_iff}

abbrev pub Dictionary {ℓ} : Type ℓ → Type ℓ
Dictionary V = List (String × V)

-- The key is not among the keys of the entries.
abbrev pub Lacks {ℓ} : {V : Type ℓ} → String → Dictionary V → Type 0
Lacks k [] = Unit
Lacks k ((j, v) ∷ d) = (j ≢ k) × Lacks k d

-- Every key stands once.
abbrev pub HasDistinctKeys {ℓ} : {V : Type ℓ} → Dictionary V → Type 0
HasDistinctKeys [] = Unit
HasDistinctKeys ((k, v) ∷ d) = Lacks k d × HasDistinctKeys d

module _ {ℓ} {V : Type ℓ} where
  -- map.get(k)
  unfoldable pub get : String → Dictionary V → Option V
  get k [] = none
  get k ((j, v) ∷ d) = if j == k then some v else get k d

  -- map.set(k, v): a key that is there keeps its place
  unfoldable pub put : String → V → Dictionary V → Dictionary V
  put k v [] = (k, v) ∷ []
  put k v ((j, w) ∷ d) = if j == k then (k, v) ∷ d else (j, w) ∷ put k v d

  -- map.delete(k)
  unfoldable pub delete : String → Dictionary V → Dictionary V
  delete k [] = []
  delete k ((j, v) ∷ d) = let rest = delete k d in if j == k then rest else (j, v) ∷ rest

  pub get-put :
      (k j : String) (v : V) (d : Dictionary V)
      → get j (put k v d) ≡ (if k == j then some v else get j d)
  unfolding get put
  get-put k j v [] = refl
  get-put k j v ((i, w) ∷ d) = ground (arith, eq_iff k j, eq_iff i k, eq_iff i j, get-put k j v d)

  pub get-delete :
      (k j : String) (d : Dictionary V) → get j (delete k d) ≡ (if k == j then none else get j d)
  unfolding get delete
  get-delete k j [] = ground arith
  get-delete k j ((i, w) ∷ d) = ground (arith, eq_iff k j, eq_iff i k, eq_iff i j, get-delete k j d)

  put-Lacks : (k j : String) (v : V) (d : Dictionary V) → k ≢ j → Lacks j d → Lacks j (put k v d)
  unfolding put
  put-Lacks k j v [] h l = (h, tt)
  put-Lacks k j v ((i, w) ∷ d) h l = ground (arith, eq_iff i k, put-Lacks k j v d h l.1)

  pub put-HasDistinctKeys :
      (k : String) (v : V) (d : Dictionary V) → HasDistinctKeys d → HasDistinctKeys (put k v d)
  unfolding put
  put-HasDistinctKeys k v [] h = (tt, tt)
  put-HasDistinctKeys k v ((i, w) ∷ d) (l, h) =
      ground (arith, eq_iff i k, put-Lacks k i v d, put-HasDistinctKeys k v d h)
