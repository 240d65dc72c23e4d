-- ===== src/Patches/Version/Laws.antt =====
-- resolvePatchVersion comes to a version or `false`, and takes the user's choice first.
use kaede.Prelude.{String, Option, none, some, refl}
use kaede.Outcome.{Outcome, ok, throw}
use kaede.Exec.{attempt}
use kaede.Exec.Total.{NeverThrows, pure-NeverThrows, attempt-NeverThrows, >>=-NeverThrows}
use kaede.Json.{Json}
use kaede.FileManager.JsonFile.{Files}
use kaede.Network.Http.{Fetch}
use kaede.Statuses.{Launch, set_status}
use kaede.Meta.{Dependency, Necessaries}
use kaede.Patches.Version.{
  selected_version, specified_version, latest_version, of_latest, of_index, patch_index, read_index,
  read_version, or_read, or_specified, resolve_patch_version,
}

pub set_status-NeverThrows :
    {W : Type 0} (status : String) → NeverThrows {S = Launch W} (set_status status)
set_status-NeverThrows status s = (tt, _, refl)

module _ {W : Type 0} (files : Files (Launch W)) (fetch : Fetch (Launch W))
    (necessaries : Necessaries) where
  of_latest-NeverThrows : (v : Option String) → NeverThrows (of_latest files fetch necessaries v)
  of_latest-NeverThrows (some v) = pure-NeverThrows (some v)
  of_latest-NeverThrows none =
      >>=-NeverThrows (set_status patch_index.failed_to_validate) _
        (set_status-NeverThrows patch_index.failed_to_validate) (λ _. pure-NeverThrows none)

  of_index-NeverThrows :
      (tried : Outcome (Option Json)) → NeverThrows (of_index files fetch necessaries tried)
  of_index-NeverThrows (throw e) = pure-NeverThrows none
  of_index-NeverThrows (ok index) = of_latest-NeverThrows (latest_version index)

  read_version-NeverThrows : (uid : String) → NeverThrows (read_version files fetch necessaries uid)
  unfolding read_version
  read_version-NeverThrows uid =
      >>=-NeverThrows (set_status patch_index.reading) _
        (set_status-NeverThrows patch_index.reading)
        (λ _.
          >>=-NeverThrows (attempt (read_index files fetch necessaries uid)) _
            (attempt-NeverThrows (read_index files fetch necessaries uid)) of_index-NeverThrows)

  or_read-NeverThrows :
      (uid : String) (v : Option String) → NeverThrows (or_read files fetch necessaries uid v)
  or_read-NeverThrows uid (some v) = pure-NeverThrows (some v)
  or_read-NeverThrows uid none = read_version-NeverThrows uid

  or_specified-NeverThrows :
      (d : Dependency) (v : Option String) → NeverThrows (or_specified files fetch necessaries d v)
  or_specified-NeverThrows d (some v) = pure-NeverThrows (some v)
  or_specified-NeverThrows d none = or_read-NeverThrows d.uid (specified_version d)

  pub resolve_patch_version-NeverThrows :
      (d : Dependency) → NeverThrows (resolve_patch_version files fetch necessaries d)
  unfolding resolve_patch_version
  resolve_patch_version-NeverThrows d =
      or_specified-NeverThrows d (selected_version necessaries.versions d.uid)
