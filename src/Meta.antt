-- ===== src/Meta.antt =====
-- types/launcher: the metadata of a patch as it comes from a meta server, the artifacts that are
-- made of it, the finalized patch, and the information that the launch starts from. An optional
-- field that is absent is `none`; fields that the modelled code never reads are left out.
use kaede.Prelude.{String, Bool, Option, List}
use kaede.Prelude.Dictionary.{Dictionary}
use kaede.Parsers.Platform.{Platform, Arch}

-- SpecificPatchLibraryRuleType: `rule?.action`, and `rule?.os?.name`
pub record Rule : Type 0 where
  pub action : Option String
  pub os_name : Option String

-- SpecificPatchArtifactType
pub record Download : Type 0 where
  pub sha1 : Option String
  pub url : Option String

-- SpecificPatchLibraryDownloadsType; `classifiers` lists the entries of the object in their order
pub record Downloads : Type 0 where
  pub artifact : Option Download
  pub classifiers : Option (List (String × (String × String)))

-- SpecificPatchLibraryType; `rules` is `none` where it is no array
pub record Library : Type 0 where
  pub name : Option String
  pub downloads : Option Downloads
  pub exclude : Option (List String)
  pub rules : Option (List Rule)
  pub url : Option String
  pub mmc_hint : Option String

-- An entry of a `libraries` array before it is validated.
pub data Entry : Type 0 where
  not_an_object without_name : Entry
  library : Library → Entry

-- SpecificPatchAssetIndexType
pub record AssetIndex : Type 0 where
  pub id : Option String
  pub sha1 : Option String
  pub url : Option String

-- SpecificPatchLoggingType
pub record LoggingMeta : Type 0 where
  pub argument : Option String
  pub file : Option AssetIndex
  pub type : Option String

-- SpecificPatchMainJarType, with `downloads?.artifact`
pub record MainJar : Type 0 where
  pub name : Option String
  pub artifact : Option Download

-- PatchDependencyType
pub record Dependency : Type 0 where
  pub uid : String
  pub equals : Option String
  pub suggests : Option String

-- SpecificPatchMetaType
pub record Patch : Type 0 where
  pub uid : String
  pub jvm_args : Option (List String)
  pub traits : Option (List String)
  pub tweakers : Option (List String)
  pub maven_files : Option (List Entry)
  pub libraries : Option (List Entry)
  pub plus_libraries : Option (List Entry)
  pub main_class : Option String
  pub minecraft_arguments : Option String
  pub asset_index : Option AssetIndex
  pub type : Option String
  pub logging : Option LoggingMeta
  pub main_jar : Option MainJar
  pub requires : Option (List Dependency)

pub data ArtifactStatus : Type 0 where
  library maven_file native empty : ArtifactStatus

-- MappedArtifactType
pub record Artifact : Type 0 where
  pub id : String
  pub path : String
  pub file : String
  pub directory : String
  pub url : String
  pub hash : String
  pub status : Option ArtifactStatus
  pub first : Option Bool
  pub exclude : Option (List String)

-- the artifact of a logging configuration, `MappedArtifactType & { argument }`
pub record LoggingArtifact : Type 0 where
  pub artifact : Artifact
  pub argument : String

-- FinalizedPatchType; `false` is `none`
pub record FinalizedPatch : Type 0 where
  pub jvm_args : List String
  pub traits : List String
  pub tweakers : List String
  pub artifacts : List Artifact
  pub main_class : String
  pub minecraft_arguments : String
  pub asset_index : Option AssetIndex
  pub type : Option String
  pub client : Option Artifact
  pub logging : Option LoggingArtifact

-- LaunchAuthType
pub record Account : Type 0 where
  pub username : String
  pub token : String
  pub uuid : String
  pub type : String
  pub xuid : String

-- the `directories` of PreLaunchInformationType
pub record Directories : Type 0 where
  pub base : String
  pub instance_root : String
  pub instance_dir : String
  pub assets : String
  pub logging : String
  pub libraries : String
  pub natives : String
  pub asset_indexes : String
  pub asset_objects : String

-- `necessaries.user.account` and `finalizedPatch.minecraftArguments` as hooks leave them, with `none`
-- for undefined
pub record Live : Type 0 where
  pub account : Option Account
  pub minecraft_arguments : Option String

-- PreLaunchInformationType, with what the modelled code reads of the instance and the user
pub record Necessaries : Type 0 where
  pub platform : Platform
  pub arch : Arch
  pub directories : Directories
  pub window_width : String
  pub window_height : String
  -- `instance.patchVersions`
  pub patch_versions : Dictionary String
  pub game_arguments : Option (List String)
  pub jvm_arguments : Option (List String)
  pub java_binary : String
  pub account : Option Account
  pub versions : Option (Dictionary String)
  pub checksum : Bool
  pub cancel_id : String
