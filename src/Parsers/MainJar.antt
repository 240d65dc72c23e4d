-- ===== src/Parsers/MainJar.antt =====
-- parse-main-jar.ts and parse-logging.ts; `false` is `none`, and the log is left out.
pub mod Laws
use kaede.Prelude.{String, Option, none, some, [], ◌∷◌}
use kaede.Exec.{Exec, pure, lift, modify, ◌>>=◌, ◌>>◌}
use kaede.FileManager.{file_join}
use kaede.Statuses.{LauncherStatuses, client_failed_to_parse, logging_failed_to_parse, set_current}
use kaede.Meta.{Download, AssetIndex, MainJar, Patch, Artifact, LoggingArtifact, Necessaries}
use kaede.Parsers.ArtifactPath.{truthy, normalize_artifact_path}

-- `client?.name`, `client?.downloads?.artifact?.url` and `…?.sha1`
abbrev pub jar_name : Option MainJar → Option String
jar_name none = none
jar_name (some jar) = jar.name

abbrev jar_download : Option MainJar → Option Download
jar_download none = none
jar_download (some jar) = jar.artifact

abbrev pub jar_url : Option MainJar → Option String
jar_url jar = elim (jar_download jar) [ none ↦ none | some d ↦ d.url ]

abbrev pub jar_hash : Option MainJar → Option String
jar_hash jar = elim (jar_download jar) [ none ↦ none | some d ↦ d.sha1 ]

-- an artifact of which the optional fields are absent
abbrev plain_artifact : (id path file directory url hash : String) → Artifact
plain_artifact id path file directory url hash = record {
  id = id;
  path = path;
  file = file;
  directory = directory;
  url = url;
  hash = hash;
  status = none;
  first = none;
  exclude = none;
}

module _ (delimiter : String) (necessaries : Necessaries) where
  -- `parseMainJar` from the name, the URL and the hash; a client without a name is undefined too
  parse_jar : (name url hash : Option String) → Exec LauncherStatuses (Option Artifact)
  parse_jar (some name) (some url) (some hash) = do
    place ← lift (normalize_artifact_path delimiter name)
    (let directory =
          file_join delimiter (necessaries.directories.libraries ∷ place.directory ∷ []) in
        pure (
          some (
            plain_artifact name (file_join delimiter (directory ∷ place.file ∷ [])) place.file
              directory url hash)))
  parse_jar _ _ _ = do modify (set_current client_failed_to_parse); pure none

  unfoldable pub parse_main_jar : Patch → Exec LauncherStatuses (Option Artifact)
  unfolding parse_jar
  parse_main_jar patch =
      parse_jar (jar_name patch.main_jar) (jar_url patch.main_jar) (jar_hash patch.main_jar)

  abbrev failed_logging : Exec LauncherStatuses (Option LoggingArtifact)
  failed_logging = do modify (set_current logging_failed_to_parse); pure none

  -- `parseLogging` from the truth values of the file's id, URL and hash
  parse_logging_file :
      (argument : String) (name url hash : Option String)
      → Exec LauncherStatuses (Option LoggingArtifact)
  parse_logging_file argument (some name) (some url) (some hash) = pure (
      some (record {
        artifact =
            plain_artifact name (file_join delimiter (necessaries.directories.logging ∷ name ∷ []))
              name necessaries.directories.logging url hash;
        argument = argument;
      }))
  parse_logging_file argument _ _ _ = failed_logging

  -- `parseLogging` from the three fields that have to be there
  parse_logging_fields :
      (type argument : Option String)
      → Option AssetIndex
      → Exec LauncherStatuses (Option LoggingArtifact)
  parse_logging_fields (some type) (some argument) (some file) =
      parse_logging_file argument (truthy file.id) (truthy file.url) (truthy file.sha1)
  parse_logging_fields _ _ _ = failed_logging

  unfoldable pub parse_logging : Patch → Exec LauncherStatuses (Option LoggingArtifact)
  unfolding parse_logging_fields parse_logging_file
  parse_logging patch = elim patch.logging [
    | none ↦ failed_logging
    | some logging ↦ parse_logging_fields logging.type logging.argument logging.file
  ]
