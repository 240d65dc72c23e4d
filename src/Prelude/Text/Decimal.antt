-- ===== src/Prelude/Text/Decimal.antt =====
-- A natural number as a text, as in a template string.
use Prim.Native.Nat.{ℕ, zero, suc, ◌/◌, ◌%◌}
use Prim.Native.String.{String, [], ◌∷◌, ◌++◌}
use kaede.Prelude.Tests.{ltb, if◌then◌else◌}

-- the character at a place, as a text
abbrev char_at : ℕ → String → String
char_at n [] = ""
char_at zero (c ∷ s) = c ∷ []
char_at (suc n) (c ∷ s) = char_at n s

abbrev digit : ℕ → String
digit n = char_at n "0123456789"

-- A number has at most as many digits as one more than itself.
decimal_within : ℕ → ℕ → String
decimal_within zero n = ""
decimal_within (suc fuel) n =
    let rest = decimal_within fuel (n / 10) in if ltb n 10 then digit n else rest ++ digit (n % 10)

unfoldable pub decimal : ℕ → String
unfolding decimal_within
decimal n = decimal_within (suc n) n
