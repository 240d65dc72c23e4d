-- ===== src/Arguments/Command/Plain.antt =====
-- The command of a launch that no extension takes part in.
use mathlib.Core.List.{append_assoc, append-nil}
use kaede.Prelude.{String, Option, some, List, [], ◌∷◌, ◌++◌, map, default, ◌≡◌, refl, sym, ap, ◌∙◌}
use kaede.Prelude.Text.{split, join}
use kaede.Prelude.Unique.{to_set}
use kaede.Outcome.{ok}
use kaede.Exec.{pure}
use kaede.Hooks.{IsSilent}
use kaede.Hooks.Laws.{async-of_IsSilent, async_share-of_IsSilent}
use kaede.Meta.{Account, Live, FinalizedPatch, Necessaries}
use kaede.Arguments.ClassPaths.{path_separator}
use kaede.Arguments.ClassPaths.Laws.{class_path, get_class_paths-of_IsSilent}
use kaede.Arguments.Jvm.{
  get_jvm_arguments, build_jvm_arguments, default_arguments, platform_arguments, logging_arguments,
}
use kaede.Arguments.Game.{get_game_arguments, build_game_arguments, push_tweakers, window_arguments}
use kaede.Arguments.Start.{get_java_binary, get_additional_start_arguments}
use kaede.Arguments.Replace.{
  replace_launch_arguments, replace_placeholders, replacements_of, auth_replacements_of,
}
use kaede.Arguments.Replace.Passes.{replace_launch_arguments-of_IsSilent}
use kaede.Arguments.Command.{ArgumentHooks, create_command}

-- No hook of the command's scopes is registered.
pub record HasNoHooks {S : Type 0} (hooks : ArgumentHooks S) : Type 0 where
  pub java_binary_before : IsSilent hooks.java_binary_before
  pub jvm_before : IsSilent hooks.jvm_before
  pub jvm_after : IsSilent hooks.jvm_after
  pub class_paths_before : IsSilent hooks.class_paths_before
  pub game_before : IsSilent hooks.game_before
  pub game_after : IsSilent hooks.game_after
  pub additional_before : IsSilent hooks.additional_before
  pub replace_before : IsSilent hooks.replace_before
  pub replace_after : IsSilent hooks.replace_after

abbrev tweak_classes : List String → List String
tweak_classes [] = []
tweak_classes (tweaker ∷ tweakers) = "--tweakClass" ∷ tweaker ∷ tweak_classes tweakers

push_tweakers-eq :
    (tweakers arguments : List String)
    → push_tweakers tweakers arguments ≡ arguments ++ tweak_classes tweakers
unfolding push_tweakers
push_tweakers-eq [] arguments = sym (append-nil arguments)
push_tweakers-eq (tweaker ∷ tweakers) arguments =
    push_tweakers-eq tweakers (arguments ++ "--tweakClass" ∷ tweaker ∷ [])
    ∙ append_assoc arguments ("--tweakClass" ∷ tweaker ∷ []) (tweak_classes tweakers)

abbrev jvm_part : String → Necessaries → FinalizedPatch → List String
jvm_part version necessaries patch =
    default_arguments
    ++ patch.jvm_args
    ++ default [] necessaries.jvm_arguments
    ++ platform_arguments necessaries.platform version patch
    ++ logging_arguments necessaries.platform patch.logging

abbrev game_part : Necessaries → FinalizedPatch → List String
game_part necessaries patch =
    split 32 patch.minecraft_arguments
    ++ tweak_classes patch.tweakers
    ++ window_arguments necessaries

-- The command line before the placeholders are replaced.
abbrev pub command_line : String → Necessaries → FinalizedPatch → List String
command_line version necessaries patch =
    jvm_part version necessaries patch
    ++ ("-cp" ∷ "${classpath}" ∷ [])
    ++ patch.main_class ∷ game_part necessaries patch

-- One argument after the two passes.
abbrev pub replaced : String → Account → Necessaries → FinalizedPatch → String → String
replaced launcher_version account necessaries patch argument =
    replace_placeholders (auth_replacements_of account) (
      replace_placeholders
        (replacements_of launcher_version account
          (join (path_separator necessaries.platform) (to_set (class_path patch))) necessaries
          patch)
        argument)

map-map :
    {A B C : Type 0} (f : A → B) (g : B → C) (xs : List A)
    → map g (map f xs) ≡ map (λ x. g (f x)) xs
map-map f g [] = refl
map-map f g (x ∷ xs) = ap (λ rest. g (f x) ∷ rest) (map-map f g xs)

module _ {S : Type 0} (hooks : ArgumentHooks S) (silent : HasNoHooks hooks)
    (necessaries : Necessaries) (patch : FinalizedPatch) where
  plain_java_binary :
      (s : S)
      → get_java_binary hooks.java_binary_before necessaries patch s
        ≡ (ok necessaries.java_binary, s)
  unfolding get_java_binary
  plain_java_binary s =
      async-of_IsSilent hooks.java_binary_before (necessaries, patch) (pure necessaries.java_binary)
        s silent.java_binary_before

  plain_additional :
      (s : S)
      → get_additional_start_arguments hooks.additional_before necessaries patch s ≡ (ok [], s)
  unfolding get_additional_start_arguments
  plain_additional s =
      async_share-of_IsSilent hooks.additional_before (necessaries, patch) [] pure s
        silent.additional_before

  plain_jvm :
      (version : String) (s : S)
      → get_jvm_arguments version hooks.jvm_before hooks.jvm_after necessaries patch s
        ≡ (ok (jvm_part version necessaries patch), s)
  unfolding get_jvm_arguments build_jvm_arguments
  plain_jvm version s =
      async_share-of_IsSilent hooks.jvm_before (necessaries, patch) [] _ s silent.jvm_before
      ∙ async-of_IsSilent hooks.jvm_after (necessaries, patch)
          (pure (jvm_part version necessaries patch)) s silent.jvm_after

  plain_game :
      (minecraft_arguments : S → Option String) (s : S)
      → minecraft_arguments s ≡ some patch.minecraft_arguments
      → get_game_arguments hooks.game_before hooks.game_after minecraft_arguments necessaries patch
          s
        ≡ (ok (game_part necessaries patch), s)
  unfolding get_game_arguments build_game_arguments
  plain_game minecraft_arguments s e =
      async-of_IsSilent hooks.game_before (necessaries, patch) _ s silent.game_before
      ∙ rw e refl
      ∙ async_share-of_IsSilent hooks.game_after (necessaries, patch) _ pure s silent.game_after
      ∙ ap (λ built. (ok (built ++ window_arguments necessaries), s))
          (push_tweakers-eq patch.tweakers (split 32 patch.minecraft_arguments))

  plain_replace :
      (launcher_version : String) (account : Account) (arguments : List String) (s : S)
      → replace_launch_arguments launcher_version hooks.replace_before hooks.replace_after account
          arguments
          (join (path_separator necessaries.platform) (to_set (class_path patch)))
          necessaries
          patch
          s
        ≡ (ok (map (replaced launcher_version account necessaries patch) arguments), s)
  plain_replace launcher_version account arguments s =
      replace_launch_arguments-of_IsSilent launcher_version hooks.replace_before hooks.replace_after
        account arguments (join (path_separator necessaries.platform) (to_set (class_path patch)))
        necessaries patch s silent.replace_before silent.replace_after
      ∙ ap (λ built. (ok built, s))
          (map-map _ (replace_placeholders (auth_replacements_of account)) arguments)

-- Where no hook of the command's scopes is registered, and an account and the game arguments of
-- the patch are there, createCommand returns the Java binary of the user with the default JVM
-- arguments, those of the patches, of the instance, of the platform and of the logging
-- configuration, then -cp with its placeholder, the main class, the words of the game arguments,
-- the tweakers and the window size, in this order, each argument after the two passes of the
-- placeholder replacement, and leaves the state as it was.
pub create_command-of_HasNoHooks :
    {S : Type 0} (os_version launcher_version : String) (hooks : ArgumentHooks S) (live : S → Live)
    (account : Account) (necessaries : Necessaries) (patch : FinalizedPatch) (s : S)
    → HasNoHooks hooks
    → (live s).account ≡ some account
    → (live s).minecraft_arguments ≡ some patch.minecraft_arguments
    → create_command os_version launcher_version hooks live necessaries patch s ≡ (
      ok (record {
        java = necessaries.java_binary;
        arguments =
            map
              (replaced launcher_version account necessaries patch)
              (command_line os_version necessaries patch);
      }),
      s,
    )
unfolding create_command
create_command-of_HasNoHooks os_version launcher_version hooks live account necessaries patch s
      silent is_there unchanged =
    rw
      (
        plain_java_binary hooks silent necessaries patch s,
        plain_jvm hooks silent necessaries patch os_version s,
        get_class_paths-of_IsSilent hooks.class_paths_before necessaries patch s
            silent.class_paths_before,
        plain_game hooks silent necessaries patch (λ t. (live t).minecraft_arguments) s unchanged,
        plain_additional hooks silent necessaries patch s,
        is_there,
        plain_replace hooks silent necessaries patch launcher_version account
            (command_line os_version necessaries patch) s,
      )
      refl
