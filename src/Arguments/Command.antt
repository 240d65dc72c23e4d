-- ===== src/Arguments/Command.antt =====
-- create-command.ts: the command line is put together from its parts.
pub mod Laws
pub mod Plain
use kaede.Prelude.{String, Option, none, some, List, ◌∷◌, [], ◌++◌}
use kaede.Prelude.Dictionary.{Dictionary}
use kaede.Outcome.{Outcome, ok, throw, missing_account}
use kaede.Exec.{Exec, pure, ask, lift, attempt, ◌>>=◌}
use kaede.Hooks.{Hook}
use kaede.Meta.{Account, Live, FinalizedPatch, Necessaries}
use kaede.Arguments.ClassPaths.{ClassPaths, get_class_paths}
use kaede.Arguments.Jvm.{get_jvm_arguments}
use kaede.Arguments.Game.{get_game_arguments}
use kaede.Arguments.Start.{get_java_binary, get_additional_start_arguments}
use kaede.Arguments.Replace.{replace_launch_arguments}

-- what `createCommand` returns
pub record Command : Type 0 where
  pub java : String
  pub arguments : List String

abbrev Asked : Type 0
Asked = Necessaries × FinalizedPatch

-- the hooks of the scopes that `createCommand` comes through
pub record ArgumentHooks (S : Type 0) : Type 0 where
  pub java_binary_before : Option (List (Hook S Asked String))
  pub jvm_before : Option (List (Hook (S × List String) Asked (List String)))
  pub jvm_after : Option (List (Hook S Asked (List String)))
  pub class_paths_before : Option (List (Hook (S × List String) Asked ClassPaths))
  pub game_before : Option (List (Hook S Asked (List String)))
  pub game_after : Option (List (Hook (S × List String) Asked (List String)))
  pub additional_before : Option (List (Hook (S × List String) Asked (List String)))
  pub replace_before :
      Option (List (Hook (S × (Dictionary String × List String)) Asked (List String)))
  pub replace_after :
      Option (List (Hook (S × (Dictionary String × List String)) Asked (List String)))

-- `toReplace`
abbrev pub to_replace_of :
    List String → List String → ClassPaths → String → List String → List String
to_replace_of additional jvm class_paths main_class game =
    additional ++ jvm ++ (class_paths.argument.0 ∷ class_paths.argument.1 ∷ []) ++ main_class ∷ game

abbrev pub some_account : Option Account → Outcome Account
some_account none = throw missing_account
some_account (some account) = ok account

-- The five parts of `Promise.all` run to their ends, here one after the other in the order in which
-- they are started; a rejected part does not stop the others.
unfoldable pub create_command :
    {S : Type 0}
    → String
    → String
    → ArgumentHooks S
    → (S → Live)
    → Necessaries
    → FinalizedPatch
    → Exec S Command
create_command os_version launcher_version hooks live necessaries patch = do
  java_tried ← attempt (get_java_binary hooks.java_binary_before necessaries patch)
  jvm_tried ←
      attempt (get_jvm_arguments os_version hooks.jvm_before hooks.jvm_after necessaries patch)
  class_paths_tried ← attempt (get_class_paths hooks.class_paths_before necessaries patch)
  game_tried ← attempt (
      get_game_arguments hooks.game_before hooks.game_after (λ s. (live s).minecraft_arguments)
        necessaries patch)
  additional_tried ←
      attempt (get_additional_start_arguments hooks.additional_before necessaries patch)
  java ← lift java_tried
  jvm ← lift jvm_tried
  class_paths ← lift class_paths_tried
  game ← lift game_tried
  additional ← lift additional_tried
  account ← ask (λ s. (live s).account)
  auth ← lift (some_account account)
  arguments ←
      replace_launch_arguments launcher_version hooks.replace_before hooks.replace_after auth
        (to_replace_of additional jvm class_paths patch.main_class game) class_paths.class_paths
        necessaries patch
  pure (record { java = java; arguments = arguments })
