-- ===== src/Parsers/Tests.antt =====
-- Runs of the parsers, and an instance of each of their theorems.
use mathlib.Core.Bool.{true≢false}
use mathlib.Core.List.{reverse}
use mathlib.Core.Path.{subst}
use kaede.Prelude.{
  String, true, false, Option, none, some, List, [], ◌∷◌, ◌++◌, map, ◌≡◌, ◌≢◌, ◌↔◌, refl, sym, ◌∙◌,
  str_eq, eq_iff, if◌then◌else◌, All, inl,
}
use kaede.Prelude.Text.{split, join, includes, ends_with, count_of}
use kaede.Prelude.Text.Splitting.{is_free, is_free-Free}
use kaede.Prelude.Dictionary.{get, put}
use kaede.Outcome.{Error, Outcome, ok, throw}
use kaede.Hooks.{catch_sync_response_hooks}
use kaede.FileManager.{file_join}
use kaede.Statuses.{LauncherStatuses, set_current, libraries_failed_to_validate}
use kaede.Meta.{
  Rule, Downloads, Library, Entry, not_an_object, without_name, MainJar, Patch, maven_file,
  Artifact, FinalizedPatch,
}
use kaede.Parsers.Platform.{macos, any, Unified, unify_platform_with_arch}
use kaede.Parsers.Platform.Names.{read_name}
use kaede.Parsers.Rules.{handle_platform_rule, apply_rule, apply_rules, should_include_library}
use kaede.Parsers.Rules.Verdict.{IsKnown, should_include_library-last_word}
use kaede.Parsers.ArtifactPath.{NormalizedPath, normalize_artifact_path}
use kaede.Parsers.ArtifactPath.Coordinates.{
  Coordinate, IsCoordinate, part_of, normalize_artifact_path-print,
  normalize_artifact_path-throw_iff,
}
use kaede.Parsers.Url.{build_url_from_base}
use kaede.Parsers.Url.Layout.{build_url-eq-directory}
use kaede.Parsers.Native.{check_is_native, required_name, parse_native}
use kaede.Parsers.Native.Laws.{IsNativeOf, parse_native-IsNativeOf}
use kaede.Parsers.Library.{parse_library}
use kaede.Parsers.Library.Placement.{IsPlaced, parse_library-IsPlaced}
use kaede.Parsers.Libraries.{
  LibrariesHooks, shallowly_validate_library, parse_included, parse_entry, parse_entries,
  parse_libraries,
}
use kaede.Parsers.Libraries.Laws.{all_artifacts, any_invalid, parse_libraries-all_artifacts}
use kaede.Parsers.MainJar.{parse_main_jar, parse_logging}
use kaede.Parsers.Finalize.{
  Building, initial, add_artifact, add_all, take_fields, after_round, add_maven_files,
  add_artifacts_to_map, add_patch, add_patches, finalize_patches,
}
use kaede.Parsers.Finalize.Unique.{
  IsUnique, InClasspath, finalize_patches-IsUnique, add_patches-InClasspath,
}
use kaede.Parsers.Finalize.Priority.{IsFirstGiven, finalize_patches-IsFirstGiven}
use kaede.Samples.{machine, statuses}

code : Unit {0}
unfolding read_name split join includes ends_with count_of is_free get put file_join
    unify_platform_with_arch handle_platform_rule apply_rule apply_rules should_include_library
    normalize_artifact_path build_url_from_base check_is_native required_name parse_native
    parse_library shallowly_validate_library parse_included parse_entry parse_entries
    parse_libraries parse_main_jar parse_logging add_artifact add_all take_fields after_round
    add_maven_files add_artifacts_to_map add_patch add_patches finalize_patches
    catch_sync_response_hooks
code = tt

abbrev no_hooks : LibrariesHooks
no_hooks = record { before = none; after = none }

abbrev download : String → String → Option Downloads
download url sha1 =
    some
      (record { artifact = some (record { sha1 = some sha1; url = some url }); classifiers = none })

abbrev library_named : String → Library
library_named name = record {
  name = some name;
  downloads = download "https://l/a.jar" "abc";
  exclude = none;
  rules = none;
  url = none;
  mmc_hint = none;
}

abbrev rules : List Rule
rules =
    record { action = some "allow"; os_name = none }
    ∷ record { action = some "disallow"; os_name = some "osx" }
    ∷ []

abbrev lwjgl : Library
lwjgl = record (library_named "org.lwjgl:lwjgl:3.3.1") { rules = some rules }

abbrev lwjgl_native : Library
lwjgl_native = library_named "org.lwjgl:lwjgl:3.3.1:natives-linux"

abbrev client : MainJar
client = record {
  name = some "com.mojang:minecraft:1.20.1:client";
  artifact = some (record { sha1 = some "c"; url = some "https://c/client.jar" });
}

abbrev game : Patch
game = record {
  uid = "net.minecraft";
  jvm_args = none;
  traits = some ("FirstThreadOnMacOS" ∷ []);
  tweakers = none;
  maven_files = none;
  libraries = some (Entry.library lwjgl ∷ Entry.library lwjgl_native ∷ not_an_object ∷ []);
  plus_libraries = none;
  main_class = some "net.minecraft.client.main.Main";
  minecraft_arguments = some "--version ${version_name}";
  asset_index = none;
  type = some "release";
  logging = none;
  main_jar = some client;
  requires = none;
}

abbrev loader : Patch
loader = record game {
  uid = "net.fabricmc.fabric-loader";
  libraries = none;
  plus_libraries = some (Entry.library (library_named "org.lwjgl:lwjgl:3.3.2") ∷ []);
  main_class = some "net.fabricmc.loader.Main";
  main_jar = none;
}

patch_or : Outcome FinalizedPatch → FinalizedPatch
patch_or (ok p) = p
patch_or (throw e) = initial.built

abbrev run_of : List Patch → Outcome FinalizedPatch × LauncherStatuses
run_of patches = finalize_patches "/" no_hooks machine patches statuses

paths_of : FinalizedPatch → List String
paths_of p = map (λ a. a.path) p.artifacts

abbrev both : List Patch
both = loader ∷ game ∷ []

-- The library of the loader takes the place of that of the game.
finalize_patches_test :
    paths_of (patch_or (run_of both).0)
    ≡ "/k/libraries/org/lwjgl/lwjgl/3.3.2/lwjgl-3.3.2.jar"
      ∷ "/k/libraries/org/lwjgl/lwjgl/3.3.1/lwjgl-3.3.1-natives-linux.jar" ∷ []
unfolding code patch_or paths_of
finalize_patches_test = refl

finalize_patches-IsUnique_example :
    (b : Building) × (add_patches "/" no_hooks machine (reverse both) initial statuses
      ≡ (ok b, (run_of both).1))
    × ((patch_or (run_of both).0).artifacts ≡ b.maven_files ++ map (λ entry. entry.1) b.unique)
    × IsUnique b.unique
unfolding code patch_or
finalize_patches-IsUnique_example =
    finalize_patches-IsUnique "/" no_hooks machine both (patch_or (run_of both).0) statuses
      (run_of both).1 refl

finalize_patches-IsFirstGiven_example :
    IsFirstGiven "/" no_hooks machine both (patch_or (run_of both).0)
unfolding code patch_or
finalize_patches-IsFirstGiven_example =
    finalize_patches-IsFirstGiven "/" no_hooks machine both (patch_or (run_of both).0) statuses
      (run_of both).1 refl

building_or : Outcome Building → Building
building_or (ok b) = b
building_or (throw e) = initial

abbrev after_game : Outcome Building × LauncherStatuses
after_game = add_patches "/" no_hooks machine (game ∷ []) initial statuses

abbrev after_both : Outcome Building × LauncherStatuses
after_both = add_patches "/" no_hooks machine (loader ∷ []) (building_or after_game.0) after_game.1

add_patches-InClasspath_example : InClasspath "org.lwjgl:lwjgl" (building_or after_both.0).unique
unfolding code building_or
add_patches-InClasspath_example =
    add_patches-InClasspath "/" no_hooks machine (loader ∷ []) "org.lwjgl:lwjgl"
      (building_or after_game.0) (building_or after_both.0) after_game.1 after_both.1 refl
      (_, refl, inl refl)

abbrev entries : List Entry
entries = Entry.library lwjgl ∷ Entry.library lwjgl_native ∷ without_name ∷ []

parse_libraries-all_artifacts_example :
    ((parse_libraries "/" machine false no_hooks entries statuses).0
      ≡ all_artifacts "/" machine false entries)
    × ((r : List Artifact) (s' : LauncherStatuses)
        → parse_libraries "/" machine false no_hooks entries statuses ≡ (ok r, s')
        → s' ≡ (
            if any_invalid entries
            then set_current libraries_failed_to_validate statuses
            else statuses))
parse_libraries-all_artifacts_example =
    parse_libraries-all_artifacts "/" machine false no_hooks entries statuses tt tt

rules-IsKnown : All IsKnown rules
unfolding code
rules-IsKnown = (
  λ name e. absurd (none-ne e),
  (λ name e. subst IsAccepted (some_inj e) ((macos, any), refl), tt),
)
  where
    IsAccepted : String → Type 0
    IsAccepted name = (u : Unified) × (unify_platform_with_arch name ≡ ok u)

    none-ne : {name : String} → none ≡ some name → ⊥
    none-ne e = cc

    some_inj : {a b : String} → some a ≡ some b → a ≡ b
    some_inj e = cc

should_include_library-last_word_example : should_include_library machine lwjgl ≡ ok true
unfolding code
should_include_library-last_word_example =
    should_include_library-last_word machine lwjgl rules-IsKnown

abbrev odd : Library
odd = record lwjgl { rules = some (record { action = none; os_name = some "plan9" } ∷ []) }

native_of : Outcome (Option Artifact) → Artifact
native_of (ok (some a)) = a
native_of _ = record {
  id = "";
  path = "";
  file = "";
  directory = "";
  url = "";
  hash = "";
  status = none;
  first = none;
  exclude = none;
}

parse_native-IsNativeOf_example :
    (name : String) × (place : NormalizedPath) × (lwjgl_native.name ≡ some name)
    × (normalize_artifact_path "/" name ≡ ok place)
    × IsNativeOf "/" machine lwjgl_native name place
        (native_of (parse_native "/" machine lwjgl_native))
unfolding code native_of
parse_native-IsNativeOf_example =
    parse_native-IsNativeOf "/" machine lwjgl_native
      (native_of (parse_native "/" machine lwjgl_native)) refl

abbrev bare : Library
bare = record (library_named "a.b:c:1") { downloads = none }

parse_library-IsPlaced_example :
    (name : String) × (place : NormalizedPath) × (bare.name ≡ some name)
    × (normalize_artifact_path "/" name ≡ ok place)
    × IsPlaced "/" machine true bare place (native_of (parse_library "/" machine true bare))
unfolding code native_of
parse_library-IsPlaced_example =
    parse_library-IsPlaced "/" machine true bare (native_of (parse_library "/" machine true bare))
      refl

abbrev coordinate : Coordinate
coordinate = record {
  group = "org.lwjgl";
  name = "lwjgl";
  version = "3.3.1";
  classifier = some "natives-linux";
  extension = none;
}

given : (s : String) → str_eq s "" ≡ false → s ≢ ""
given s h e = true≢false (sym ((eq_iff s "").1 e) ∙ h)

coordinate-IsCoordinate : IsCoordinate coordinate
unfolding code
coordinate-IsCoordinate = record {
  group_part = (is_free-Free b':' "org.lwjgl" refl, is_free-Free b'@' "org.lwjgl" refl);
  name_part = (is_free-Free b':' "lwjgl" refl, is_free-Free b'@' "lwjgl" refl);
  version_part = (is_free-Free b':' "3.3.1" refl, is_free-Free b'@' "3.3.1" refl);
  classifier_part =
      (is_free-Free b':' "natives-linux" refl, is_free-Free b'@' "natives-linux" refl);
  extension_part = tt;
  group_given = given "org.lwjgl" refl;
  name_given = given "lwjgl" refl;
  version_given = given "3.3.1" refl;
}

normalize_artifact_path-print_example :
    normalize_artifact_path "/" "org.lwjgl:lwjgl:3.3.1:natives-linux"
    ≡ ok (record {
      directory = "org/lwjgl/lwjgl/3.3.1";
      file = "lwjgl-3.3.1-natives-linux.jar";
      classifier = some "natives-linux";
      id = "org.lwjgl:lwjgl";
    })
unfolding code
normalize_artifact_path-print_example =
    normalize_artifact_path-print "/" coordinate coordinate-IsCoordinate

normalize_artifact_path-throw_iff_example :
    ((e : Error) × (normalize_artifact_path "/" "org.lwjgl" ≡ throw e))
    ↔ ¬ (
        (g n v : String) × (part_of "org.lwjgl" 0 ≡ some g)
        × (part_of "org.lwjgl" 1 ≡ some n)
        × (part_of "org.lwjgl" 2 ≡ some v))
normalize_artifact_path-throw_iff_example = normalize_artifact_path-throw_iff "/" "org.lwjgl"

build_url-eq-directory_example :
    build_url_from_base "https://l" "org.lwjgl:lwjgl:3.3.1:natives-linux" "f.jar"
    ≡ some "https://l/org/lwjgl/lwjgl/3.3.1/natives-linux/f.jar"
unfolding code
build_url-eq-directory_example =
    build_url-eq-directory "https://l" "f.jar" coordinate coordinate-IsCoordinate
      (given "org" refl, (given "lwjgl" refl, tt)) refl

abbrev artifact : String → Artifact
artifact hash = record {
  id = "a:b";
  path = "/k/b.jar";
  file = "b.jar";
  directory = "/k";
  url = "";
  hash = hash;
  status = some maven_file;
  first = none;
  exclude = none;
}

abbrev client_artifact : Option Artifact
client_artifact = some (record {
  id = "com.mojang:minecraft:1.20.1:client";
  path = file_join "/" (
      machine.directories.libraries ∷ "com/mojang/minecraft/1.20.1" ∷ "minecraft-1.20.1-client.jar"
      ∷ []);
  file = "minecraft-1.20.1-client.jar";
  directory = file_join "/" (machine.directories.libraries ∷ "com/mojang/minecraft/1.20.1" ∷ []);
  url = "https://c/client.jar";
  hash = "c";
  status = none;
  first = none;
  exclude = none;
})
