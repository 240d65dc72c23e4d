-- ===== src/OptiFine/Jar.antt =====
-- optifine/download-optifine-jar.ts, inspect-optifine-jar.ts and extract-launchwrapper.ts: the jar of
-- OptiFine, and the jar of LaunchWrapper that stands in it.
pub mod Laws
use kaede.Prelude.{
  String, ℕ, Bool, true, false, ◌||◌, Option, none, some, List, [], ◌∷◌, ltb, str_eq, if◌then◌else◌,
}
use kaede.Prelude.Text.{concat}
use kaede.Prelude.Text.Trim.{trim}
use kaede.Outcome.{Outcome, ok, throw}
use kaede.Exec.{Exec, pure, lift, attempt, ◌>>=◌, ◌>>◌}
use kaede.FileManager.{file_join}
use kaede.Network.Download.{Report}
use kaede.Network.Call.{concurrently_download}
use kaede.Statuses.{Launch}
use kaede.Meta.{Necessaries}
use kaede.Parsers.ArtifactPath.{NormalizedPath, normalize_artifact_path}
use kaede.Fetching.Platform.{Platform}
use kaede.OptiFine.Version.{ParsedVersion}

-- The contents of files are of a type `B`. `read_entry` is the backend's `read_archive_entry`, with
-- `none` for null, `decode` that of a TextDecoder, and `size_of` the `size` of `stat`.
pub record Jars (W B : Type 0) : Type 0 where
  pub platform : Platform W
  pub read_entry : (jar entry : String) → Exec (Launch W) (Option B)
  pub decode : B → String
  pub write_file : String → B → Exec (Launch W) (Unit {0})
  pub hash_file : String → Exec (Launch W) String
  pub size_of : String → Exec (Launch W) ℕ

abbrev pub artifact_name : String → String
artifact_name version = concat ("optifine:OptiFine:" ∷ version ∷ [])

abbrev pub download_url : ParsedVersion → String
download_url parsed = concat (
    "https://bmclapi2.bangbang93.com/" ∷ "optifine/" ∷ parsed.minecraft_version ∷ "/" ∷ parsed.type
    ∷ "/" ∷ parsed.patch ∷ [])

-- InspectedOptiFineJarType
pub record Bundled : Type 0 where
  pub version : String
  pub entry_path : String

-- `.catch(() => null)`
abbrev pub or_null : {B : Type 0} → Outcome (Option B) → Option B
or_null (ok contents) = contents
or_null (throw e) = none

abbrev pub bundled_of : String → Option Bundled
bundled_of version =
    if str_eq version ""
    then none
    else some (record {
      version = version;
      entry_path = concat ("launchwrapper-of-" ∷ version ∷ ".jar" ∷ []);
    })

module _ {W B : Type 0} (jars : Jars W B) (necessaries : Necessaries) where
  abbrev pub join : List String → String
  join paths = file_join jars.platform.files.delimiter paths

  -- `report.cancelled`, and then `report.failed > 0`
  abbrev pub or_failed : String → Report → Option String
  or_failed path report = if report.cancelled || ltb 0 report.failed then none else some path

  abbrev pub unless_downloaded : String → String → Bool → Exec (Launch W) (Option String)
  unless_downloaded path url true = pure (some path)
  unless_downloaded path url false = do
    report ← concurrently_download jars.platform.backend (record { url = url; path = path } ∷ [])
    pure (or_failed path report)

  abbrev pub jar_path : NormalizedPath → String
  jar_path normalized =
      join (
        join (necessaries.directories.libraries ∷ normalized.directory ∷ []) ∷ normalized.file ∷ [])

  unfoldable pub download_optifine_jar : ParsedVersion → String → Exec (Launch W) (Option String)
  download_optifine_jar parsed version = do
    normalized ←
        lift (normalize_artifact_path jars.platform.files.delimiter (artifact_name version))
    downloaded ← jars.platform.files.exists (jar_path normalized)
    unless_downloaded (jar_path normalized) (download_url parsed) downloaded

  abbrev pub bundled_in : Option B → Option Bundled
  bundled_in none = none
  bundled_in (some contents) = bundled_of (trim (jars.decode contents))

  unfoldable pub inspect_optifine_jar : String → Exec (Launch W) (Option Bundled)
  inspect_optifine_jar jar = do
    tried ← attempt (jars.read_entry jar "launchwrapper-of.txt")
    pure (bundled_in (or_null tried))

  abbrev pub wrapper_directory : Bundled → String
  wrapper_directory bundled = join (
      necessaries.directories.libraries
      ∷ "net"
      ∷ "minecraft"
      ∷ "launchwrapper"
      ∷ concat ("of-" ∷ bundled.version ∷ [])
      ∷ [])

  abbrev pub wrapper_path : Bundled → String
  wrapper_path bundled = join (
      wrapper_directory bundled ∷ concat ("launchwrapper-of-" ∷ bundled.version ∷ ".jar" ∷ []) ∷ [])

  abbrev pub or_failed_write : String → Outcome (Unit {0}) → Option String
  or_failed_write path (ok done) = some path
  or_failed_write path (throw e) = none

  -- the body of `try`
  pub write_wrapper : Bundled → B → Exec (Launch W) (Unit {0})
  write_wrapper bundled contents = do
    jars.platform.make_directory true (wrapper_directory bundled)
    jars.write_file (wrapper_path bundled) contents

  abbrev pub with_contents : Bundled → Option B → Exec (Launch W) (Option String)
  with_contents bundled none = pure none
  with_contents bundled (some contents) = do
    tried ← attempt (write_wrapper bundled contents)
    pure (or_failed_write (wrapper_path bundled) tried)

  abbrev pub unless_extracted : String → Bundled → Bool → Exec (Launch W) (Option String)
  unless_extracted jar bundled true = pure (some (wrapper_path bundled))
  unless_extracted jar bundled false = do
    tried ← attempt (jars.read_entry jar bundled.entry_path)
    with_contents bundled (or_null tried)

  unfoldable pub extract_launch_wrapper : String → Bundled → Exec (Launch W) (Option String)
  unfolding write_wrapper
  extract_launch_wrapper jar bundled = do
    path_exists ← jars.platform.files.exists (wrapper_path bundled)
    unless_extracted jar bundled path_exists
