-- ===== src/Arguments/Start.antt =====
-- get-java-binary.ts and get-additional-start-arguments.ts: what an extension may put before the
-- arguments of the game.
use kaede.Prelude.{String, Option, List, []}
use kaede.Exec.{Exec, pure, ◌>>=◌, share}
use kaede.Hooks.{Hook, or_else, catch_async_response_hooks}
use kaede.Meta.{FinalizedPatch, Necessaries}

module _ {S : Type 0} where
  unfoldable pub get_java_binary :
      Option (List (Hook S (Necessaries × FinalizedPatch) String))
      → Necessaries
      → FinalizedPatch
      → Exec S String
  get_java_binary before necessaries patch = do
    answer ← catch_async_response_hooks before (necessaries, patch)
    or_else answer (pure necessaries.java_binary)

  -- The hooks may push onto the empty array.
  unfoldable pub get_additional_start_arguments :
      Option (List (Hook (S × List String) (Necessaries × FinalizedPatch) (List String)))
      → Necessaries
      → FinalizedPatch
      → Exec S (List String)
  get_additional_start_arguments before necessaries patch = do
    answer ← share [] (catch_async_response_hooks before (necessaries, patch))
    or_else answer.0 (pure answer.1)
