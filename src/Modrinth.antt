-- ===== src/Modrinth.antt =====
-- lib/modrinth/install-mrpack.ts: the installation of a modpack, and the versions that it asks for.
pub mod Versions
mod Tests
use kaede.Prelude.{String, ℕ, Bool, true, false, Option, none, some, List, map, filter, [], ◌∷◌}
use kaede.Prelude.Dictionary.{Dictionary}
use kaede.Exec.{Exec, pure, modify, ◌>>=◌, ◌>>◌}
use kaede.FileManager.{file_join}
use kaede.Network.Download.{DownloadEntry, Report}
use kaede.Network.Call.{concurrently_download}
use kaede.Statuses.{LauncherStatuses, Launch}
use kaede.Fetching.Platform.{Platform, has, verify_paths}

-- MrpackManifestFileType and MrpackManifestType, with what the modelled code reads of them
pub record ManifestFile : Type 0 where
  pub path : String
  pub url : String
  pub sha1 : String

pub record Manifest : Type 0 where
  pub name : String
  pub dependencies : Dictionary String
  pub files : List ManifestFile

-- the backend's `install_mrpack`, of the archive and the directory
abbrev pub Unpack : Type 0 → Type 0
Unpack W = (archive directory : String) → Exec (Launch W) Manifest

-- an entry of `entries`
pub record PackEntry : Type 0 where
  pub url : String
  pub path : String
  pub hash : String

abbrev pub installed_now : LauncherStatuses → LauncherStatuses
installed_now s = record s { launching = 0 }

module _ {W : Type 0} (platform : Platform W) (unpack : Unpack W) where
  abbrev entry_in : String → ManifestFile → PackEntry
  entry_in directory file = record {
    url = file.url;
    hash = file.sha1;
    path = file_join platform.files.delimiter (directory ∷ file.path ∷ []);
  }

  abbrev path_with_hash : PackEntry → String × String
  path_with_hash entry = (entry.path, entry.hash)

  abbrev is_missing_entry : List String → PackEntry → Bool
  is_missing_entry missing entry = has entry.path missing

  abbrev download_of : PackEntry → DownloadEntry
  download_of entry = record { url = entry.url; path = entry.path }

  abbrev after_report : Manifest → Report → Bool → Exec (Launch W) (Option Manifest × Report)
  after_report manifest report true = pure (none, report)
  after_report manifest report false = do
    modify (λ (w, s). (w, installed_now s))
    pure (some manifest, report)

  -- `directory` is that of the instance
  unfoldable pub install_mrpack :
      (checksum : Bool) → (archive directory : String) → Exec (Launch W) (Option Manifest × Report)
  install_mrpack checksum archive directory = do
    manifest ← unpack archive directory
    missing ←
        verify_paths platform checksum
          (map path_with_hash (map (entry_in directory) manifest.files))
    report ← concurrently_download platform.backend (
        map download_of
          (filter (is_missing_entry missing) (map (entry_in directory) manifest.files)))
    after_report manifest report report.cancelled
