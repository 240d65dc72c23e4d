-- ===== src/Parsers/Finalize.antt =====
-- finalize-patches.ts: the loop over the patches, from dependencies to parents, that makes the
-- finalized patch.
pub mod Rounds
pub mod Unique
pub mod Priority
use mathlib.Core.List.{reverse}
use kaede.Prelude.{
  String, Bool, true, false, Option, none, some, List, [], ◌∷◌, ◌++◌, map, default, if◌then◌else◌,
}
use kaede.Prelude.Dictionary.{Dictionary, get, put}
use kaede.Outcome.{Outcome, ok, throw}
use kaede.Exec.{Exec, pure, ◌>>=◌}
use kaede.Statuses.{LauncherStatuses}
use kaede.Meta.{
  ArtifactStatus, library, empty, Entry, Artifact, LoggingArtifact, AssetIndex, Patch,
  FinalizedPatch, Necessaries,
}
use kaede.Parsers.ArtifactPath.{truthy}
use kaede.Parsers.Libraries.{LibrariesHooks, parse_libraries}
use kaede.Parsers.MainJar.{parse_main_jar, parse_logging}

-- the variables of the loop: `built`, `foundMavenFiles` and `uniqueArtifacts`
pub record Building : Type 0 where
  pub built : FinalizedPatch
  pub maven_files : List Artifact
  pub unique : Dictionary Artifact

abbrev pub default_main_class : String
default_main_class = "net.minecraft.client.Minecraft"

abbrev pub initial : Building
initial = record {
  built = record {
    jvm_args = [];
    traits = [];
    tweakers = [];
    artifacts = [];
    main_class = default_main_class;
    minecraft_arguments = "";
    asset_index = none;
    type = none;
    client = none;
    logging = none;
  };
  maven_files = [];
  unique = [];
}

-- The stored statuses that stay: "library" and "empty" are in the classpath.
abbrev pub kept_status : Option Artifact → Option ArtifactStatus
kept_status none = none
kept_status (some stored) = elim stored.status [
  | none ↦ none
  | some status ↦ elim status [ library ↦ some library | empty ↦ some empty | _ ↦ none ]
]

abbrev with_status : Option ArtifactStatus → Artifact → Artifact
with_status none artifact = artifact
with_status (some status) artifact = record artifact { status = some status }

-- one round of the loop of `addArtifactsToMap`
unfoldable pub add_artifact : Option Bool → Artifact → Dictionary Artifact → Dictionary Artifact
add_artifact is_first artifact unique =
    put artifact.id
      (with_status (kept_status (get artifact.id unique)) (record artifact { first = is_first }))
      unique

-- the loop of `addArtifactsToMap`
unfoldable pub add_all : Option Bool → List Artifact → Dictionary Artifact → Dictionary Artifact
add_all is_first [] unique = unique
add_all is_first (artifact ∷ artifacts) unique =
    add_all is_first artifacts (add_artifact is_first artifact unique)

-- `if (value) built.field = value`
abbrev pub overwrite {ℓ} : {A : Type ℓ} → A → Option A → A
overwrite old none = old
overwrite old (some new) = new

abbrev pub overwrite_option {ℓ} : {A : Type ℓ} → Option A → Option A → Option A
overwrite_option old none = old
overwrite_option old (some new) = some new

-- the assignments from the plain fields of a patch
unfoldable pub take_fields : Patch → FinalizedPatch → FinalizedPatch
take_fields patch built = record built {
  jvm_args = built.jvm_args ++ default [] patch.jvm_args;
  traits = built.traits ++ default [] patch.traits;
  tweakers = built.tweakers ++ default [] patch.tweakers;
  main_class = overwrite built.main_class (truthy patch.main_class);
  minecraft_arguments = overwrite built.minecraft_arguments (truthy patch.minecraft_arguments);
  asset_index = overwrite_option built.asset_index patch.asset_index;
  type = overwrite_option built.type (truthy patch.type);
}

-- the variables at the end of a round of the loop of `finalizePatches`
unfoldable pub after_round :
    Patch
    → Building
    → List Artifact
    → Dictionary Artifact
    → Option LoggingArtifact
    → Option Artifact
    → Building
after_round patch b found unique current_logging current_client =
    let fields = take_fields patch b.built in
    record {
      built = record fields {
        logging = overwrite_option fields.logging current_logging;
        client = overwrite_option fields.client current_client;
      };
      maven_files = found;
      unique = unique;
    }

module _ (delimiter : String) (hooks : LibrariesHooks) (necessaries : Necessaries) where
  -- `addMavenFiles`
  unfoldable pub add_maven_files :
      Option (List Entry) → List Artifact → Exec LauncherStatuses (List Artifact)
  add_maven_files none found = pure found
  add_maven_files (some entries) found = do
    artifacts ← parse_libraries delimiter necessaries true hooks entries
    pure (found ++ artifacts)

  -- `addArtifactsToMap`
  unfoldable pub add_artifacts_to_map :
      Option Bool
      → Option (List Entry)
      → Dictionary Artifact
      → Exec LauncherStatuses (Dictionary Artifact)
  add_artifacts_to_map is_first none unique = pure unique
  add_artifacts_to_map is_first (some entries) unique = do
    artifacts ← parse_libraries delimiter necessaries false hooks entries
    pure (add_all is_first artifacts unique)

  -- the body of the loop of `finalizePatches`
  unfoldable pub add_patch : Patch → Building → Exec LauncherStatuses Building
  add_patch patch b = do
    found ← add_maven_files patch.maven_files b.maven_files
    with_libraries ← add_artifacts_to_map none patch.libraries b.unique
    with_plus ← add_artifacts_to_map (some true) patch.plus_libraries with_libraries
    current_logging ← parse_logging delimiter necessaries patch
    current_client ← parse_main_jar delimiter necessaries patch
    pure (after_round patch b found with_plus current_logging current_client)

  -- the loop of `finalizePatches`
  unfoldable pub add_patches : List Patch → Building → Exec LauncherStatuses Building
  add_patches [] b = pure b
  add_patches (patch ∷ patches) b = do next ← add_patch patch b; add_patches patches next

  unfoldable pub finalize_patches : List Patch → Exec LauncherStatuses FinalizedPatch
  finalize_patches patches = do
    b ← add_patches (reverse patches) initial
    (let built = b.built in
        pure (record built { artifacts = b.maven_files ++ map (λ entry. entry.1) b.unique }))
