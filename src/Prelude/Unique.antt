-- ===== src/Prelude/Unique.antt =====
-- JavaScript's `Set` of strings: its elements in the order in which they were first added.
use Prim.Native.String.{String}
use mathlib.Core.Path.{◌≡◌, refl, ◌∙◌}
use mathlib.Core.Bool.{Bool, false, ◌||◌}
use mathlib.Core.List.{List, [], ◌∷◌, ◌++◌}
use native.Mathlib.Omega.{arith}
use text.Mathlib.Text.{◌==◌}
use text.Mathlib.TextEquality.{eq_iff}
use kaede.Prelude.Tests.{if◌then◌else◌}
use kaede.Prelude.Lists.{All}

-- set.has(x)
unfoldable pub has : String → List String → Bool
has x [] = false
has x (y ∷ ys) = (y == x) || has x ys

-- set.add(x)
unfoldable pub add : String → List String → List String
add x set = if has x set then set else set ++ x ∷ []

-- the loop of `new Set(xs)`
unfoldable pub add_each : List String → List String → List String
add_each [] set = set
add_each (x ∷ xs) set = add_each xs (add x set)

-- new Set(xs)
abbrev pub to_set : List String → List String
to_set xs = add_each xs []

-- Every element stands once.
abbrev pub IsDistinct : List String → Type 0
IsDistinct [] = Unit
IsDistinct (x ∷ xs) = (has x xs ≡ false) × IsDistinct xs

has-append : (x : String) (xs ys : List String) → has x (xs ++ ys) ≡ (has x xs || has x ys)
unfolding has
has-append x [] ys = refl
has-append x (y ∷ xs) ys = ground (arith, has-append x xs ys)

has-single : (x y : String) → has x (y ∷ []) ≡ (y == x)
unfolding has
has-single x y = ground arith

has-add : (x y : String) (set : List String) → has x (add y set) ≡ (has x set || (y == x))
unfolding add
has-add x y set = ground (arith, has-append x set (y ∷ []), has-single x y, eq_iff y x)

has-add_each :
    (x : String) (xs set : List String) → has x (add_each xs set) ≡ (has x set || has x xs)
unfolding add_each has
has-add_each x [] set = ground arith
has-add_each x (y ∷ xs) set = ground (arith, has-add_each x xs (add y set), has-add x y set)

-- A set has the elements of its list.
pub has-to_set : (x : String) (xs : List String) → has x (to_set xs) ≡ has x xs
has-to_set x xs = has-add_each x xs [] ∙ unfold has in refl

IsDistinct-append :
    (xs : List String) (x : String) → IsDistinct xs → has x xs ≡ false → IsDistinct (xs ++ x ∷ [])
unfolding has
IsDistinct-append [] x h n = (refl, tt)
IsDistinct-append (y ∷ xs) x h n = (
  ground (arith, has-append y xs (x ∷ []), eq_iff x y, eq_iff y x, h.0),
  IsDistinct-append xs x h.1 (ground arith),
)

add_each-IsDistinct : (xs set : List String) → IsDistinct set → IsDistinct (add_each xs set)
unfolding add_each add
add_each-IsDistinct [] set h = h
add_each-IsDistinct (x ∷ xs) set h =
    add_each-IsDistinct xs (add x set) (ground (arith, IsDistinct-append set x h))

pub to_set-IsDistinct : (xs : List String) → IsDistinct (to_set xs)
to_set-IsDistinct xs = add_each-IsDistinct xs [] tt

module _ (P : String → Type 0) where
  All-add_each : (xs set : List String) → All P set → All P xs → All P (add_each xs set)
  unfolding add_each add
  All-add_each [] set hs hx = hs
  All-add_each (x ∷ xs) set hs hx = All-add_each xs (add x set) (ground (arith, snoc set hs)) hx.1
    where
      snoc : (set : List String) → All P set → All P (set ++ x ∷ [])
      snoc [] h = (hx.0, tt)
      snoc (y ∷ ys) h = (h.0, snoc ys h.1)

  pub All-to_set : (xs : List String) → All P xs → All P (to_set xs)
  All-to_set xs = All-add_each xs [] tt
