-- ===== src/Prelude/Text.antt =====
-- What the launcher uses of JavaScript's strings, over the code points of a native text:
-- `split` on one character, `join`, template strings, `endsWith`, `includes` and `replace`.
pub mod Decimal
pub mod Splitting
pub mod Cutting
pub mod Trim
pub mod Replacing
use Prim.Native.Nat.{ℕ, zero, suc, ◌+◌}
use Prim.Native.Char.{Char, code}
use Prim.Native.String.{String, [], ◌∷◌, ◌++◌}
use mathlib.Core.Bool.{Bool, true, false, ◌||◌}
use mathlib.Core.List
use mathlib.Core.List.{List}
use mathlib.Core.Logic.{◌≢◌}
use text.Mathlib.Text.{starts_with}
use kaede.Prelude.Tests.{◌==◌, if◌then◌else◌}

-- s.split(c), for a separator of one character, given by its code point
abbrev pub onto_head : Char → List String → List String
onto_head d List.[] = List.◌∷◌ (d ∷ []) List.[]
onto_head d (List.◌∷◌ p ps) = List.◌∷◌ (d ∷ p) ps

unfoldable pub split : ℕ → String → List String
split c [] = List.◌∷◌ "" List.[]
split c (d ∷ s) = let rest = split c s in if code d == c then List.◌∷◌ "" rest else onto_head d rest

-- parts.join(sep)
unfoldable pub join : String → List String → String
join sep List.[] = ""
join sep (List.◌∷◌ p List.[]) = p
join sep (List.◌∷◌ p (List.◌∷◌ q ps)) = p ++ (sep ++ join sep (List.◌∷◌ q ps))

-- a template string, from its pieces
abbrev pub concat : List String → String
concat List.[] = ""
concat (List.◌∷◌ p ps) = p ++ concat ps

-- No character of the text has the code point `c`.
abbrev pub Free : ℕ → String → Type 0
Free c [] = Unit
Free c (d ∷ s) = (code d ≢ c) × Free c s

-- How often a code point stands in a text.
unfoldable pub count_of : ℕ → String → ℕ
count_of c [] = 0
count_of c (d ∷ s) = let rest = count_of c s in if code d == c then suc rest else rest

-- s.includes(t)
unfoldable pub includes : String → String → Bool
includes [] t = starts_with "" t
includes (c ∷ s) t = starts_with (c ∷ s) t || includes s t

-- s.endsWith(c), for one character
unfoldable pub ends_with : String → ℕ → Bool
ends_with [] c = false
ends_with (d ∷ []) c = code d == c
ends_with (d ∷ (e ∷ s)) c = ends_with (e ∷ s) c
