-- ===== src/Arguments/Tests.antt =====
-- Runs of the argument modules, and an instance of each of their theorems.
use Prim.Native.String.{◌++◌ as ◌⊕◌}
use mathlib.Core.Bool.{true≢false}
use kaede.Prelude.{
  Option, String, Bool, true, false, ◌&&◌, All, ◌≢◌, str_eq, eq_iff, sym, ◌∙◌, none, some, List, [],
  ◌∷◌, map, ◌≡◌, refl, arith,
}
use kaede.Prelude.Text.{split, join, includes}
use kaede.Prelude.Text.Splitting.{is_free, is_free-Free}
use kaede.Prelude.Text.Replacing.{size}
use kaede.Prelude.Dictionary.{Dictionary, get}
use kaede.Prelude.Unique.{has, add, add_each}
use kaede.Outcome.{ok}
use kaede.Parsers.Platform.{linux, x64}
use kaede.Meta.{Live, Account, Artifact, library, native, FinalizedPatch, Necessaries}
use kaede.Arguments.Split.{step, run, escape, quote_argument, split_arguments, join_arguments}
use kaede.Arguments.Split.Laws.{split_arguments-quoted}
use kaede.Arguments.Split.RoundTrip.{split_arguments-join_arguments}
use kaede.Arguments.ClassPaths.{ClassPaths, gather, get_class_paths}
use kaede.Arguments.ClassPaths.Laws.{class_path, IsClassPath, get_class_paths-IsClassPath}
use kaede.Arguments.Replace.{
  match_at, replace_at, replace_placeholders, replacements_of, replace_launch_arguments,
}
use kaede.Arguments.Replace.Template.{Piece, literal, key, IsPiece, replace-print}
use kaede.Arguments.Replace.Passes.{HasPlainValues, replace_launch_arguments-fill}
use kaede.Arguments.Command.{ArgumentHooks, Command, create_command}
use kaede.Arguments.Command.Plain.{replaced, command_line, create_command-of_HasNoHooks}

code : Unit {0}
unfolding step run escape quote_argument split_arguments join_arguments split join gather
    get_class_paths is_free has add add_each includes match_at replace_at get size
code = tt

given : (s : String) → str_eq s "" ≡ false → s ≢ ""
given s h e = true≢false (sym ((eq_iff s "").1 e) ∙ h)

cons_ne_nil : {x : String} {xs : List String} → x ∷ xs ≢ []
cons_ne_nil = cc

split_arguments_tests :
    (split_arguments none ≡ [])
    × (split_arguments (some "-Xmx2G  -Xms1G") ≡ "-Xmx2G" ∷ "-Xms1G" ∷ [])
    × (split_arguments (some "\"a b\" c d") ≡ "a b" ∷ [])
    × (join_arguments (some ("a b" ∷ "c" ∷ [])) ≡ "\"a b\" c")
unfolding code
split_arguments_tests = (refl, refl, refl, refl)

-- What stands after the closing quote is lost.
split_arguments-quoted_example :
    split_arguments (some ("-a " ⊕ ("\"" ⊕ "b c\" -d"))) ≡ "-a" ∷ "b c" ∷ []
unfolding code
split_arguments-quoted_example =
    split_arguments-quoted "-a " "b c\" -d" (is_free-Free 34 "-a " refl)

split_arguments-join_arguments_example :
    split_arguments (some (join_arguments (some ("-a" ∷ "-b" ∷ [])))) ≡ "-a" ∷ "-b" ∷ []
unfolding code
split_arguments-join_arguments_example = split_arguments-join_arguments ("-a" ∷ "-b" ∷ []) (
  (given "-a" refl, is_free-Free 32 "-a" refl, is_free-Free 34 "-a" refl),
  ((given "-b" refl, is_free-Free 32 "-b" refl, is_free-Free 34 "-b" refl), tt),
)

abbrev artifact_at : String → String → Artifact
artifact_at id path = record {
  id = id;
  path = path;
  file = "a.jar";
  directory = "libraries";
  url = "";
  hash = "ignore";
  status = some library;
  first = some false;
  exclude = none;
}

abbrev patch : FinalizedPatch
patch = record {
  jvm_args = "-Xss1M" ∷ [];
  traits = "FirstThreadOnMacOS" ∷ [];
  tweakers = "optifine.Tweaker" ∷ [];
  artifacts =
      artifact_at "a:b" "/l/b.jar"
      ∷ record (artifact_at "a:c" "/l/c.jar") { status = some native }
      ∷ artifact_at "a:d" "/l/d.jar"
      ∷ artifact_at "a:b" "/l/b.jar"
      ∷ [];
  main_class = "net.minecraft.client.main.Main";
  minecraft_arguments = "--username ${auth_player_name}";
  asset_index = none;
  type = none;
  client = some (artifact_at "client" "/l/client.jar");
  logging =
      some (record { artifact = artifact_at "log" "/l/log.xml"; argument = "-Dlog4j=${path}" });
}

abbrev necessaries : Necessaries
necessaries = record {
  platform = linux;
  arch = x64;
  directories = record {
    base = "/k";
    instance_root = "/k/i";
    instance_dir = "/k/i/m";
    assets = "/k/assets";
    logging = "/k/logging";
    libraries = "/k/libraries";
    natives = "/k/natives";
    asset_indexes = "/k/assets/indexes";
    asset_objects = "/k/assets/objects";
  };
  window_width = "854";
  window_height = "480";
  patch_versions = ("net.minecraft", "1.20.1") ∷ [];
  game_arguments = none;
  jvm_arguments = none;
  java_binary = "java";
  account = none;
  versions = none;
  checksum = true;
  cancel_id = "launch";
}

class_path_test : class_path patch ≡ "/l/b.jar" ∷ "/l/d.jar" ∷ "/l/b.jar" ∷ "/l/client.jar" ∷ []
unfolding code
class_path_test = refl

get_class_paths-IsClassPath_example :
    (found : ClassPaths) × (get_class_paths {S = Unit {0}} none necessaries patch tt
      ≡ (ok found, tt))
    × IsClassPath necessaries patch found.class_paths
unfolding code
get_class_paths-IsClassPath_example =
    get_class_paths-IsClassPath none necessaries patch tt tt cons_ne_nil (
      is_free-Free 58 "/l/b.jar" refl,
      (
        is_free-Free 58 "/l/d.jar" refl,
        (is_free-Free 58 "/l/b.jar" refl, (is_free-Free 58 "/l/client.jar" refl, tt)),
      ),
    )

abbrev account : Account
account = record { username = "ann"; token = "secret"; uuid = "0"; type = "msa"; xuid = "1" }

abbrev table : Dictionary String
table = ("classpath", "/l/b.jar:/l/d.jar") ∷ ("natives_directory", "/k/natives") ∷ []

abbrev template : List Piece
template = literal "-cp=" ∷ key "classpath" ∷ literal " " ∷ key "auth_uuid" ∷ []

template_pieces : All IsPiece template
unfolding code
template_pieces = (
  is_free-Free 36 "-cp=" refl,
  (
    (is_free-Free 36 "classpath" refl, is_free-Free 125 "classpath" refl),
    (
      is_free-Free 36 " " refl,
      ((is_free-Free 36 "auth_uuid" refl, is_free-Free 125 "auth_uuid" refl), tt),
    ),
  ),
)

replace-print_example :
    replace_placeholders table "-cp=${classpath} ${auth_uuid}"
    ≡ "-cp=/l/b.jar:/l/d.jar ${auth_uuid}"
unfolding code
replace-print_example =
    replace-print table template
      (is_free-Free 125 "classpath" refl, (is_free-Free 125 "natives_directory" refl, tt))
      template_pieces

are_plain : Dictionary String → Bool
are_plain [] = true
are_plain ((k, v) ∷ entries) = is_free 36 v && are_plain entries

are_plain-HasPlainValues :
    (entries : Dictionary String) → are_plain entries ≡ true → HasPlainValues entries
unfolding are_plain
are_plain-HasPlainValues [] h = tt
are_plain-HasPlainValues ((k, v) ∷ entries) h =
    ground (arith, is_free-Free 36 v, are_plain-HasPlainValues entries)

replace_launch_arguments-fill_example :
    replace_launch_arguments {S = Unit {0}} "1.0" none none account
      ("-cp=${classpath} ${auth_uuid}" ∷ [])
      "/l/b.jar"
      necessaries
      patch
      tt
    ≡ (ok ("-cp=/l/b.jar 0" ∷ []), tt)
unfolding code
replace_launch_arguments-fill_example =
    replace_launch_arguments-fill "1.0" none none account (template ∷ []) "/l/b.jar" necessaries
      patch tt tt tt
      (are_plain-HasPlainValues (replacements_of "1.0" account "/l/b.jar" necessaries patch)
        (unfold are_plain in refl))
      (template_pieces, tt)

abbrev no_hooks : ArgumentHooks (Unit {0})
no_hooks = record {
  java_binary_before = none;
  jvm_before = none;
  jvm_after = none;
  class_paths_before = none;
  game_before = none;
  game_after = none;
  additional_before = none;
  replace_before = none;
  replace_after = none;
}

abbrev live : Unit {0} → Live
live u = record { account = some account; minecraft_arguments = some patch.minecraft_arguments }

create_command-of_HasNoHooks_example :
    create_command "" "1.0" no_hooks live necessaries patch tt ≡ (
      ok (record {
        java = "java";
        arguments =
            map (replaced "1.0" account necessaries patch) (command_line "" necessaries patch);
      }),
      tt,
    )
create_command-of_HasNoHooks_example =
    create_command-of_HasNoHooks "" "1.0" no_hooks live account necessaries patch tt
      (record {
        java_binary_before = tt;
        jvm_before = tt;
        jvm_after = tt;
        class_paths_before = tt;
        game_before = tt;
        game_after = tt;
        additional_before = tt;
        replace_before = tt;
        replace_after = tt;
      })
      refl refl

-- A hook of the Java binary that gives the account of a launch without one.
abbrev giving : ArgumentHooks (Option Account)
giving = record {
  java_binary_before =
      some ((λ p s. (ok (record { status = "continue"; response = none }), some account)) ∷ []);
  jvm_before = none;
  jvm_after = none;
  class_paths_before = none;
  game_before = none;
  game_after = none;
  additional_before = none;
  replace_before = none;
  replace_after = none;
}

abbrev live_account : Option Account → Live
live_account s = record { account = s; minecraft_arguments = some "--username ${auth_player_name}" }

abbrev given_command : Command
given_command = record {
  java = "java";
  arguments = map (replaced "1.0" account necessaries patch) (command_line "" necessaries patch);
}

-- The whole command line of the sample patch.
arguments_test :
    map
      (replaced "1.0" account necessaries patch)
      ("${classpath}" ∷ "${auth_player_name}" ∷ "${main_jar_path}" ∷ "${other}" ∷ [])
    ≡ "/l/b.jar:/l/d.jar:/l/client.jar" ∷ "ann" ∷ "/l/client.jar" ∷ "${other}" ∷ []
unfolding code
arguments_test = refl
