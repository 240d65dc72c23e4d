-- ===== src/Parsers/Library.antt =====
-- parse-library.ts; `false` is `none`, and the log is left out.
pub mod Placement
use kaede.Prelude.{
  String, Bool, true, false, Option, none, some, List, [], ◌∷◌, str_eq, default, if◌then◌else◌,
}
use kaede.Outcome.{Outcome, ok, throw, ◌>>=◌}
use kaede.FileManager.{file_join}
use kaede.Meta.{Library, Artifact, ArtifactStatus, library, maven_file, Necessaries}
use kaede.Parsers.ArtifactPath.{NormalizedPath, normalize_artifact_path}
use kaede.Parsers.Url.{build_url_from_base}
use kaede.Parsers.Native.{url_of, sha1_of}

-- `APIEndpoints.Libraries.Base`
abbrev pub libraries_base : String
libraries_base = "https://libraries.minecraft.net/"

-- `isMaven ? "mavenFile" : "library"`
abbrev pub maven_status : Bool → ArtifactStatus
maven_status true = maven_file
maven_status false = library

-- `library["MMC-hint"] === "local"`
abbrev pub is_local : Library → Bool
is_local lib = elim lib.mmc_hint [ none ↦ false | some hint ↦ str_eq hint "local" ]

module _ (delimiter : String) (necessaries : Necessaries) (is_maven : Bool) where
  -- the objects that `parseLibrary` returns, which differ in the URL, the hash and the status
  library_artifact : Library → NormalizedPath → (url hash : String) → ArtifactStatus → Artifact
  library_artifact lib place url hash status =
      let directory =
        file_join delimiter (necessaries.directories.libraries ∷ place.directory ∷ []) in
      record {
        id = place.id;
        path = file_join delimiter (directory ∷ place.file ∷ []);
        file = place.file;
        directory = directory;
        url = url;
        hash = hash;
        status = some status;
        first = some false;
        exclude = some (default [] lib.exclude);
      }

  -- with a URL built from a base, if it can be built
  from_base : Library → NormalizedPath → ArtifactStatus → Option String → Option Artifact
  from_base lib place status none = none
  from_base lib place status (some url) = some (library_artifact lib place url "ignore" status)

  -- the last branch: both the URL and the hash have to be given
  from_downloads : Library → NormalizedPath → (url hash : Option String) → Option Artifact
  from_downloads lib place (some url) (some hash) =
      some (library_artifact lib place url hash (maven_status is_maven))
  from_downloads lib place _ _ = none

  -- the branches on the base URL, after the library is known not to be local
  parse_remote : Library → String → NormalizedPath → Option Artifact
  parse_remote lib name place = elim lib.url [
    | none ↦ elim lib.downloads [
      | none ↦ from_base lib place library (build_url_from_base libraries_base name place.file)
      | some downloads ↦ from_downloads lib place (url_of lib) (sha1_of lib)
    ]
    | some base ↦
        from_base lib place (maven_status is_maven) (build_url_from_base base name place.file)
  ]

  parse_library_at : Library → String → NormalizedPath → Option Artifact
  parse_library_at lib name place =
      if is_local lib
      then some
          (library_artifact lib place "" (default "ignore" (sha1_of lib)) (maven_status is_maven))
      else parse_remote lib name place

  -- `parseLibrary` from the name of the library
  parse_named : Library → Option String → Outcome (Option Artifact)
  parse_named lib none = ok none
  parse_named lib (some name) = do
    place ← normalize_artifact_path delimiter name
    ok (parse_library_at lib name place)

  unfoldable pub parse_library : Library → Outcome (Option Artifact)
  unfolding parse_named parse_library_at parse_remote from_downloads from_base library_artifact
  parse_library lib = parse_named lib lib.name
