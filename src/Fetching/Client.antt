-- ===== src/Fetching/Client.antt =====
-- download-client.ts
use kaede.Prelude.{
  String, Bool, true, false, not, ◌&&◌, Option, none, some, List, [], ◌∷◌, suc, str_eq,
}
use kaede.Outcome.{Outcome, ok, throw}
use kaede.Exec.{Exec, pure, modify, attempt, ◌>>=◌, ◌>>◌}
use kaede.Hooks.{catch_async_void_hooks}
use kaede.Network.Download.{Report}
use kaede.Network.Call.{concurrently_download}
use kaede.Statuses.{LauncherStatuses, Launch, set_status}
use kaede.Meta.{Artifact, FinalizedPatch, Necessaries}
use kaede.Fetching.Platform.{Platform, unless_answered, path_and_hash, verify_paths}

-- statuses.downloads.failed++
abbrev pub one_failed : LauncherStatuses → LauncherStatuses
one_failed s = record s { downloads = record s.downloads { failed = suc s.downloads.failed } }

abbrev pub count_failure : {W : Type 0} → Exec (Launch W) (Unit {0})
count_failure = modify (λ (w, s). (w, one_failed s))

abbrev is_any : List String → Bool
is_any [] = false
is_any (path ∷ paths) = true

-- `mismatches.length > 0 && client.hash !== "ignore"`
abbrev pub is_mismatch : List String → Artifact → Bool
is_mismatch mismatches client = is_any mismatches && not (str_eq client.hash "ignore")

-- Whether the call was cancelled; a rejection is counted and the launch goes on.
abbrev pub of_download : {W : Type 0} → Outcome Report → Exec (Launch W) Bool
of_download (ok report) = pure report.cancelled
of_download (throw e) = do count_failure; pure false

module _ {W : Type 0} (platform : Platform W) (necessaries : Necessaries)
    (patch : FinalizedPatch) where
  abbrev after_client : Bool → Exec (Launch W) Bool
  after_client true = pure false
  after_client false = do
    catch_async_void_hooks platform.client_get.after (necessaries, patch)
    set_status "client-success"
    pure true

  abbrev fetch_jar : Artifact → Bool → Exec (Launch W) Bool
  fetch_jar client false = pure false
  fetch_jar client true = do
    platform.make_directory true client.directory
    tried ← attempt (
        concurrently_download platform.backend
          (record { url = client.url; path = client.path } ∷ []))
    of_download tried

  check_jar : Option Artifact → Exec (Launch W) Bool
  check_jar none = pure false
  check_jar (some client) = do
    set_status "client-checking"
    mismatches ← verify_paths platform necessaries.checksum (path_and_hash client ∷ [])
    cancelled ← fetch_jar client (is_mismatch mismatches client)
    after_client cancelled

  unfoldable pub download_client : Exec (Launch W) Bool
  unfolding check_jar
  download_client =
      unless_answered platform.client_get.before (necessaries, patch) (check_jar patch.client)
