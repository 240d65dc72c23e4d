-- ===== src/OptiFine/Tests.antt =====
-- Runs of the modules of OptiFine, and an instance of each of their theorems.
use kaede.Prelude.{String, none, some, [], ◌∷◌, map, ◌≡◌, ◌↔◌, refl, str_eq, if◌then◌else◌}
use kaede.Prelude.Text.{join, split, concat}
use kaede.Prelude.Text.Trim.{trim}
use kaede.Prelude.Text.Cutting.{cut_first, cut_last}
use kaede.Prelude.Dictionary.{get, put}
use kaede.Exec.{pure, modify}
use kaede.Json.{Json, end}
use kaede.FileManager.{file_join}
use kaede.Network.Download.{unique_map, start, apply_snapshot_data, delete_each, finish}
use kaede.Network.Call.{concurrently_download}
use kaede.Parsers.ArtifactPath.{normalize_artifact_path}
use kaede.OptiFine.Version.{ParsedVersion, parse_optifine_version}
use kaede.OptiFine.Version.Laws.{IsVersion, print, parse_optifine_version_iff}
use kaede.OptiFine.Jar.{
  Jars, artifact_name, download_url, download_optifine_jar, inspect_optifine_jar,
  extract_launch_wrapper,
}
use kaede.OptiFine.Patch.{
  described, local_hint, patch_of, generate_optifine_patch, resolve_optifine_patch,
}
use kaede.OptiFine.Patch.Laws.{IsMadeFor, resolve_optifine_patch-IsMadeFor}
use kaede.Samples.{Machine, machine, statuses}
use kaede.Samples.Downloads.{Disk, put_each, platform}

code : Unit {0}
unfolding join split trim cut_first cut_last get put file_join unique_map start apply_snapshot_data
    delete_each finish concurrently_download normalize_artifact_path parse_optifine_version
    download_optifine_jar inspect_optifine_jar extract_launch_wrapper generate_optifine_patch
    resolve_optifine_patch put_each
code = tt

abbrev version_of : (minecraft_version type patch : String) → ParsedVersion
version_of minecraft_version type patch = record {
  minecraft_version = minecraft_version;
  type = type;
  patch = patch;
}

-- The data of parse-optifine-version.test.ts.
versions_are_parsed :
    map parse_optifine_version ("1.8.9_HD_U_M5" ∷ "1.21.4_HD_U_J3_pre14" ∷ "1.20_HD_U_I5" ∷ [])
    ≡ some (version_of "1.8.9" "HD_U" "M5")
      ∷ some (version_of "1.21.4" "HD_U_J3" "pre14")
      ∷ some (version_of "1.20" "HD_U" "I5")
      ∷ []
unfolding code
versions_are_parsed = refl

invalid_versions :
    map parse_optifine_version ("" ∷ "1.8.9" ∷ "_" ∷ "__" ∷ "1.8.9_" ∷ "_HD_U" ∷ [])
    ≡ none ∷ none ∷ none ∷ none ∷ none ∷ none ∷ []
unfolding code
invalid_versions = refl

parse_optifine_version_iff_example :
    parse_optifine_version "1.8.9_HD_U_M5" ≡ some (version_of "1.8.9" "HD_U" "M5") ↔ (
      IsVersion (version_of "1.8.9" "HD_U" "M5")
      × ("1.8.9_HD_U_M5" ≡ print (version_of "1.8.9" "HD_U" "M5")))
parse_optifine_version_iff_example =
    parse_optifine_version_iff "1.8.9_HD_U_M5" (version_of "1.8.9" "HD_U" "M5")

-- A jar that names its LaunchWrapper; the contents of files are texts.
abbrev jars : Jars Disk String
jars = record {
  platform = platform;
  read_entry = λ jar entry.
      pure (if str_eq entry "launchwrapper-of.txt" then some " 2.2\n" else some "wrapper");
  decode = λ contents. contents;
  write_file = λ path contents. modify (λ (w, s). (put path contents w, s));
  hash_file = λ path. pure (concat ("hash of " ∷ path ∷ []));
  size_of = λ path. pure 10;
}

abbrev before : Machine
before = ([], statuses)

abbrev made : Json
made =
    patch_of "1.8.9_HD_U_M5" "1.8.9"
      (described "net.minecraft:launchwrapper:of-2.2" ""
        "hash of /k/libraries/net/minecraft/launchwrapper/of-2.2/launchwrapper-of-2.2.jar" 10
        local_hint)
      (described (artifact_name "1.8.9_HD_U_M5") (download_url (version_of "1.8.9" "HD_U" "M5"))
        "hash of /k/libraries/optifine/OptiFine/1.8.9_HD_U_M5/OptiFine-1.8.9_HD_U_M5.jar" 10 end)

resolve_optifine_patch-IsMadeFor_example : IsMadeFor jars machine "1.8.9_HD_U_M5" made
unfolding code
resolve_optifine_patch-IsMadeFor_example =
    resolve_optifine_patch-IsMadeFor jars machine "1.8.9_HD_U_M5" made before
      (resolve_optifine_patch jars machine "1.8.9_HD_U_M5" before).1 refl
