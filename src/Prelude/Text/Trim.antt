-- ===== src/Prelude/Text/Trim.antt =====
-- s.trim()
use Prim.Native.Char.{Char, code}
use Prim.Native.String.{[] as empty_text, ◌∷◌ as cons_char}
use kaede.Prelude.Tests.{◌==◌, ltb, if◌then◌else◌}
use kaede.Prelude.{String, ℕ, Bool, ◌&&◌, ◌||◌}

-- white space and line terminators
abbrev pub is_space : ℕ → Bool
is_space c =
    ltb 8 c && ltb c 14
    || c == 32
    || c == 160
    || c == 5760
    || ltb 8191 c && ltb c 8203
    || c == 8232
    || c == 8233
    || c == 8239
    || c == 8287
    || c == 12288
    || c == 65279

pub trim_start : String → String
trim_start empty_text = ""
trim_start (cons_char c s) =
    let rest = trim_start s in if is_space (code c) then rest else cons_char c s

-- a character before the rest that is left
abbrev before_trimmed : Char → String → String
before_trimmed c empty_text = if is_space (code c) then "" else cons_char c ""
before_trimmed c (cons_char d s) = cons_char c (cons_char d s)

pub trim_end : String → String
trim_end empty_text = ""
trim_end (cons_char c s) = before_trimmed c (trim_end s)

unfoldable pub trim : String → String
unfolding trim_start trim_end
trim s = trim_end (trim_start s)
