-- ===== src/Prelude/Text/Replacing.antt =====
-- JavaScript's `text.replace(pattern, replacement)` for a pattern that is a plain text: the first
-- occurrence is replaced, and `$$`, `$&`, "$`" and `$'` have their meaning in the replacement.
use Prim.Native.Nat.{ℕ, zero, suc}
use Prim.Native.Char.{code}
use Prim.Native.String.{String, [], ◌∷◌, ◌++◌}
use text.Mathlib.Text.{starts_with}
use kaede.Prelude.Tests.{◌==◌, if◌then◌else◌}

-- the number of code points
unfoldable pub size : String → ℕ
size [] = 0
size (c ∷ s) = suc (size s)

-- the text without its first characters
unfoldable pub drop : ℕ → String → String
drop zero s = s
drop (suc n) [] = ""
drop (suc n) (c ∷ s) = drop n s

-- the replacement, with its special patterns filled in
unfoldable pub expand : (matched before after : String) → String → String
expand matched before after [] = ""
expand matched before after (c ∷ []) = c ∷ ""
expand matched before after (c ∷ (d ∷ s)) =
    let skipped = expand matched before after s in
    let next = expand matched before after (d ∷ s) in
    if code c == 36
    then (if code d == 36
        then "$" ++ skipped
        else if code d == 38
        then matched ++ skipped
        else if code d == 96
        then before ++ skipped
        else if code d == 39
        then after ++ skipped
        else c ∷ next)
    else c ∷ next

module _ (pattern_text replacement : String) where
  replace_from : String → String → String
  replace_from before [] =
      if starts_with "" pattern_text then expand pattern_text before "" replacement else ""
  replace_from before (c ∷ s) =
      let next = replace_from (before ++ (c ∷ "")) s in
      let after = drop (size pattern_text) (c ∷ s) in
      if starts_with (c ∷ s) pattern_text
      then expand pattern_text before after replacement ++ after
      else c ∷ next

  -- text.replace(pattern, replacement)
  unfoldable pub replace_first : String → String
  unfolding replace_from
  replace_first s = replace_from "" s
