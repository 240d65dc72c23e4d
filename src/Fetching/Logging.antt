-- ===== src/Fetching/Logging.antt =====
-- download-logging.ts
use kaede.Prelude.{Bool, true, false, Option, none, some, [], ◌∷◌}
use kaede.Exec.{Exec, pure, attempt, ◌>>=◌, ◌>>◌}
use kaede.Hooks.{catch_async_void_hooks}
use kaede.Network.Call.{concurrently_download}
use kaede.Statuses.{Launch, set_status}
use kaede.Meta.{Artifact, LoggingArtifact, FinalizedPatch, Necessaries}
use kaede.Fetching.Platform.{Platform, unless_answered}
use kaede.Fetching.Client.{of_download}

module _ {W : Type 0} (platform : Platform W) (necessaries : Necessaries)
    (patch : FinalizedPatch) where
  abbrev after_logging : Bool → Exec (Launch W) Bool
  after_logging true = pure false
  after_logging false = do
    catch_async_void_hooks platform.logging_get.after (necessaries, patch)
    set_status "logging-success"
    pure true

  abbrev ensure_logging_directory : Bool → Exec (Launch W) (Unit {0})
  ensure_logging_directory true = pure tt
  ensure_logging_directory false = platform.make_directory false necessaries.directories.logging

  -- Whether the call was cancelled.
  abbrev fetch_config : Artifact → Bool → Exec (Launch W) Bool
  fetch_config artifact true = pure false
  fetch_config artifact false = do
    tried ← attempt (
        concurrently_download platform.backend
          (record { url = artifact.url; path = artifact.path } ∷ []))
    of_download tried

  check_config : Artifact → Exec (Launch W) Bool
  check_config artifact = do
    set_status "logging-checking"
    directory_exists ← platform.files.exists necessaries.directories.logging
    file_exists ← platform.files.exists artifact.path
    ensure_logging_directory directory_exists
    cancelled ← fetch_config artifact file_exists
    after_logging cancelled

  abbrev of_logging : Option LoggingArtifact → Exec (Launch W) Bool
  of_logging none = do set_status "logging-success"; pure true
  of_logging (some logging) =
      unless_answered platform.logging_get.before (necessaries, patch)
        (check_config logging.artifact)

  unfoldable pub download_logging : Exec (Launch W) Bool
  unfolding check_config
  download_logging = of_logging patch.logging
