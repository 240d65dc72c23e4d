-- ===== src/Arguments/ClassPaths.antt =====
-- get-class-paths.ts: the paths of the jars that the game is started with.
pub mod Laws
use kaede.Prelude.{String, Bool, true, false, Option, none, some, List, [], ◌∷◌, ◌++◌}
use kaede.Prelude.Text.{join}
use kaede.Prelude.Unique.{to_set}
use kaede.Exec.{Exec, pure, ◌>>=◌, share}
use kaede.Hooks.{Hook, or_else, catch_async_response_hooks}
use kaede.Parsers.Platform.{Platform, windows, macos, linux}
use kaede.Meta.{Artifact, FinalizedPatch, Necessaries, ArtifactStatus, library, empty}

-- what `getClassPaths` returns
pub record ClassPaths : Type 0 where
  pub argument : String × String
  pub class_paths : String

abbrev pub should_be_included : Option ArtifactStatus → Bool
should_be_included none = false
should_be_included (some status) = elim status [ library ↦ true | empty ↦ true | _ ↦ false ]

abbrev pub is_first : Artifact → Bool
is_first artifact = elim artifact.first [ none ↦ false | some b ↦ b ]

-- The body of the loop: `unshift` or `push`.
abbrev place : Bool → Bool → String → List String → List String
place false first path paths = paths
place true true path paths = path ∷ paths
place true false path paths = paths ++ path ∷ []

-- the loop over the artifacts
unfoldable pub gather : List Artifact → List String → List String
gather [] paths = paths
gather (artifact ∷ artifacts) paths =
    gather artifacts
      (place (should_be_included artifact.status) (is_first artifact) artifact.path paths)

abbrev pub with_client : Option Artifact → List String → List String
with_client none paths = paths
with_client (some client) paths = paths ++ client.path ∷ []

abbrev pub path_separator : Platform → String
path_separator windows = ";"
path_separator macos = ":"
path_separator linux = ":"

abbrev pub class_paths_of : Platform → List String → ClassPaths
class_paths_of platform paths = record {
  argument = ("-cp", "${classpath}");
  class_paths = join (path_separator platform) (to_set paths);
}

-- The hooks may change the array of paths.
unfoldable pub get_class_paths :
    {S : Type 0}
    → Option (List (Hook (S × List String) (Necessaries × FinalizedPatch) ClassPaths))
    → Necessaries
    → FinalizedPatch
    → Exec S ClassPaths
get_class_paths before necessaries patch = do
  answer ←
      share (with_client patch.client (gather patch.artifacts []))
        (catch_async_response_hooks before (necessaries, patch))
  or_else answer.0 (pure (class_paths_of necessaries.platform answer.1))
