-- ===== src/Launching/Natives.antt =====
-- extractors/extract-native-archives.ts: `undefined` from the hooks ends it too.
use kaede.Prelude.{String, Bool, true, false, Option, none, some, List, [], map, filter, default}
use kaede.Exec.{Exec, pure, ◌>>=◌, ◌>>◌}
use kaede.Hooks.{
  HookResult, proceed, undefined, response, catch_async_response_hooks, catch_async_void_hooks,
}
use kaede.Statuses.{Launch}
use kaede.Meta.{Artifact, ArtifactStatus, native, FinalizedPatch, Necessaries}
use kaede.Fetching.Platform.{GetHooks}

-- `{ path, exclude }`
abbrev pub Archive : Type 0
Archive = String × List String

abbrev pub NativesPayload : Type 0
NativesPayload = Necessaries × List Archive

abbrev is_native_status : Option ArtifactStatus → Bool
is_native_status none = false
is_native_status (some status) = elim status [ native ↦ true | _ ↦ false ]

abbrev pub is_native : Artifact → Bool
is_native artifact = is_native_status artifact.status

abbrev archive_of : Artifact → Archive
archive_of artifact = (artifact.path, default [] artifact.exclude)

-- what handleLaunch passes
abbrev pub native_archives : FinalizedPatch → List Archive
native_archives patch = map archive_of (filter is_native patch.artifacts)

-- The hooks of "onNativesExtract" and FileManager.unzip.
pub record Unzipping (W : Type 0) : Type 0 where
  pub hooks : GetHooks (Launch W) NativesPayload (Unit {0})
  pub unzip : List Archive → String → Exec (Launch W) (Unit {0})

module _ {W : Type 0} (unzipping : Unzipping W) (necessaries : Necessaries)
    (paths : List Archive) where
  abbrev if_continued : HookResult (Unit {0}) → Exec (Launch W) (Unit {0})
  if_continued proceed = do
    unzipping.unzip paths necessaries.directories.natives
    catch_async_void_hooks unzipping.hooks.after (necessaries, paths)
  if_continued undefined = pure tt
  if_continued (response r) = pure tt

  unfoldable pub extract_native_archives : Exec (Launch W) (Unit {0})
  extract_native_archives = do
    answer ← catch_async_response_hooks unzipping.hooks.before (necessaries, paths)
    if_continued answer
