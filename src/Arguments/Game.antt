-- ===== src/Arguments/Game.antt =====
-- get-game-arguments.ts: the arguments after the main class.
use kaede.Prelude.{String, Option, none, some, List, [], ◌∷◌, ◌++◌, default}
use kaede.Prelude.Text.{split}
use kaede.Outcome.{Outcome, ok, throw, missing_arguments}
use kaede.Exec.{Exec, pure, ask, lift, ◌>>=◌, share}
use kaede.Hooks.{Hook, or_else, catch_async_response_hooks}
use kaede.Meta.{FinalizedPatch, Necessaries}

-- the loop that pushes the tweakers
unfoldable pub push_tweakers : List String → List String → List String
push_tweakers [] arguments = arguments
push_tweakers (tweaker ∷ tweakers) arguments =
    push_tweakers tweakers (arguments ++ "--tweakClass" ∷ tweaker ∷ [])

abbrev pub window_arguments : Necessaries → List String
window_arguments necessaries =
    ("--height" ∷ necessaries.window_height ∷ "--width" ∷ necessaries.window_width ∷ [])
    ++ default [] necessaries.game_arguments

-- The array between the hooks. The field of the patch is `none` if a hook has taken it away.
unfoldable pub build_game_arguments :
    Option String → Necessaries → FinalizedPatch → Outcome (List String)
build_game_arguments none necessaries patch = throw missing_arguments
build_game_arguments (some minecraft_arguments) necessaries patch =
    ok (push_tweakers patch.tweakers (split 32 minecraft_arguments) ++ window_arguments necessaries)

-- The hooks before it may take away the field, which is read by `minecraft_arguments`; those after it
-- may change the array.
unfoldable pub get_game_arguments :
    {S : Type 0}
    → Option (List (Hook S (Necessaries × FinalizedPatch) (List String)))
    → Option (List (Hook (S × List String) (Necessaries × FinalizedPatch) (List String)))
    → (S → Option String)
    → Necessaries
    → FinalizedPatch
    → Exec S (List String)
get_game_arguments before after minecraft_arguments necessaries patch = do
  answer ← catch_async_response_hooks before (necessaries, patch)
  or_else answer (do
    arguments ← ask minecraft_arguments
    built ← lift (build_game_arguments arguments necessaries patch)
    last ← share built (catch_async_response_hooks after (necessaries, patch))
    or_else last.0 (pure last.1))
