-- ===== src/Fetching/Libraries.antt =====
-- download-libraries.ts
pub mod Laws
use kaede.Prelude.{
  String, Bool, true, false, Option, none, some, List, [], ◌∷◌, map, filter, if◌then◌else◌,
}
use kaede.Outcome.{Outcome}
use kaede.Exec.{Exec, pure, ◌>>=◌, ◌>>◌}
use kaede.Hooks.{catch_async_void_hooks}
use kaede.Network.Download.{DownloadEntry, Report}
use kaede.Network.Call.{concurrently_download}
use kaede.Statuses.{Launch, set_status}
use kaede.Meta.{Artifact, ArtifactStatus, empty, FinalizedPatch, Necessaries}
use kaede.Fetching.Platform.{
  Platform, unless_answered, has, path_and_hash, verify_paths, make_directories,
}

-- `status !== "empty"`
abbrev pub is_not_empty_status : Option ArtifactStatus → Bool
is_not_empty_status none = true
is_not_empty_status (some status) = elim status [ empty ↦ false | _ ↦ true ]

abbrev pub is_needed : Artifact → Bool
is_needed artifact = is_not_empty_status artifact.status

abbrev pub needed_artifacts : FinalizedPatch → List Artifact
needed_artifacts patch = filter is_needed patch.artifacts

abbrev pub is_missing : List String → Artifact → Bool
is_missing missing artifact = has artifact.path missing

abbrev pub entry_of : Artifact → DownloadEntry
entry_of artifact = record { url = artifact.url; path = artifact.path }

abbrev pub directory_of : Artifact → String
directory_of artifact = artifact.directory

module _ {W : Type 0} (platform : Platform W) (necessaries : Necessaries)
    (patch : FinalizedPatch) where
  abbrev pub after_libraries : Bool → Exec (Launch W) Bool
  after_libraries true = pure false
  after_libraries false = do
    catch_async_void_hooks platform.libraries_get.after (necessaries, patch)
    set_status "libraries-success"
    pure true

  pub fetch_missing : List Artifact → Exec (Launch W) Bool
  fetch_missing artifacts = do
    make_directories platform true (map directory_of artifacts)
    report ← concurrently_download platform.backend (map entry_of artifacts)
    after_libraries report.cancelled

  pub verify_and_fetch : Exec (Launch W) Bool
  unfolding fetch_missing
  verify_and_fetch = do
    missing ←
        verify_paths platform necessaries.checksum (map path_and_hash (needed_artifacts patch))
    fetch_missing (filter (is_missing missing) (needed_artifacts patch))

  unfoldable pub download_libraries : Exec (Launch W) Bool
  unfolding verify_and_fetch
  download_libraries =
      unless_answered platform.libraries_get.before (necessaries, patch) verify_and_fetch
