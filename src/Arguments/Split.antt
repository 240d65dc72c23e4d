-- ===== src/Arguments/Split.antt =====
-- split-arguments.ts and join-arguments.ts: the text of the user's extra arguments, and their list.
pub mod Laws
pub mod RoundTrip
use Prim.Native.String.{[] as nil, ◌∷◌ as cons}
use kaede.Prelude.{
  ℕ, Char, code, String, Bool, true, false, not, Option, none, some, List, [], ◌∷◌, ◌++◌, map,
  filter, default, if◌then◌else◌, str_eq, ◌==◌,
}
use kaede.Prelude.Text.{join, includes, concat}

-- the variables of `splitArguments`; the arrays of characters are texts
pub record Splitting : Type 0 where
  pub parts : List String
  pub simple : String
  pub quoted : String
  pub in_quotes : Bool

abbrev pub quote : ℕ
quote = 34

abbrev pub space : ℕ
space = 32

abbrev pub push_character : String → Char → String
push_character t c = concat (t ∷ cons c nil ∷ [])

-- the body of the loop of `splitArguments`
unfoldable pub step : Splitting → Char → Splitting
step st c =
    if code c == quote
    then (if st.in_quotes
        then record st { parts = st.parts ++ st.quoted ∷ []; quoted = "" }
        else record st { in_quotes = true })
    else if st.in_quotes
    then record st { quoted = push_character st.quoted c }
    else if code c == space
    then record st { parts = st.parts ++ st.simple ∷ []; simple = "" }
    else record st { simple = push_character st.simple c }

unfoldable pub run : Splitting → String → Splitting
run st nil = st
run st (cons c s) = run (step st c) s

abbrev pub is_not_empty : String → Bool
is_not_empty part = not (str_eq part "")

-- the end of `splitArguments`
abbrev pub finish : Splitting → List String
finish st =
    filter is_not_empty (if is_not_empty st.simple then st.parts ++ st.simple ∷ [] else st.parts)

abbrev pub begin : Splitting
begin = record { parts = []; simple = ""; quoted = ""; in_quotes = false }

-- The empty text is falsy as well; the loop does nothing then.
unfoldable pub split_arguments : Option String → List String
split_arguments none = []
split_arguments (some input) = if str_eq input "" then [] else finish (run begin input)

-- argument.replace(/"/g, String.raw`\"`)
unfoldable pub escape : String → String
escape nil = ""
escape (cons c s) =
    let rest = escape s in if code c == quote then concat ("\\\"" ∷ rest ∷ []) else cons c rest

unfoldable pub quote_argument : String → String
quote_argument argument =
    if includes argument " " then concat ("\"" ∷ escape argument ∷ "\"" ∷ []) else argument

unfoldable pub join_arguments : Option (List String) → String
join_arguments input = join " " (map quote_argument (default [] input))
