-- ===== src/Patches/Resolve.antt =====
-- resolve-patch.ts: the metadata of one patch. A result of `false` is `none`. The validator of the
-- schemas is generated code, and the patch of OptiFine is made from its jar file.
pub mod Total
use kaede.Prelude.{String, Bool, Option, none, some, List, [], ◌∷◌, default, str_eq, if◌then◌else◌}
use kaede.Prelude.Text.{concat}
use kaede.Outcome.{Outcome, ok, throw, error}
use kaede.Exec.{Exec, pure, lift, attempt, ◌>>=◌, ◌>>◌}
use kaede.Hooks.{Hook, Scope, or_else, catch_async_response_hooks}
use kaede.Json.{Json}
use kaede.FileManager.JsonFile.{Files, handle_json_file}
use kaede.Network.Http.{Fetch}
use kaede.Network.Metadata.{ScopeStatuses, refetch}
use kaede.Statuses.{Launch, set_status}
use kaede.Meta.{Dependency, Patch, Necessaries}
use kaede.Patches.Version.{meta_base, resolve_patch_version}

-- `LaunchStatus.PatchMetadata`
abbrev pub patch_metadata : ScopeStatuses
patch_metadata = record {
  reading = "patch-metadata-pending-reading";
  fetching = "patch-metadata-pending-fetching";
  failed_to_fetch = "patch-metadata-error-fetch";
  failed_to_parse = "patch-metadata-error-parse";
  failed_to_validate = "patch-metadata-error-validation";
}

-- what is passed to the hooks of "onMinecraftPatchResolve"
pub record ResolvePayload : Type 0 where
  pub necessaries : Necessaries
  pub patch_meta : Option Patch
  pub metadata : Dependency
  pub valid_patch : Option (Option Patch)

-- What the resolution of a patch comes through.
pub record Sources (W : Type 0) : Type 0 where
  pub files : Files (Launch W)
  pub fetch : Fetch (Launch W)
  pub hooks : Scope (Launch W) ResolvePayload (Option Patch)
  -- Schemas.validate.patchMeta
  pub validate : Option Json → Option Patch
  -- OptiFine.resolveOptiFinePatch, of a version
  pub optifine_patch : String → Exec (Launch W) (Option Json)

-- `version + ".json"`
abbrev pub file_name_of : Option String → String
file_name_of version = concat (default "false" version ∷ ".json" ∷ [])

module _ {W : Type 0} (sources : Sources W) (necessaries : Necessaries) where
  abbrev or_report_optifine : String → Option Json → Exec (Launch W) (Option Json)
  or_report_optifine uid (some patch) = pure (some patch)
  or_report_optifine uid none = do
    set_status patch_metadata.failed_to_fetch
    lift (throw (error (concat ("Could not generate the patch metadata (" ∷ uid ∷ ")" ∷ []))))

  abbrev generate : Option String → Exec (Launch W) (Option Json)
  generate none = pure none
  generate (some version) = sources.optifine_patch version

  refetch_optifine : String → Option String → Exec (Launch W) (Option Json)
  refetch_optifine uid version = do
    set_status patch_metadata.fetching
    generated ← generate version
    or_report_optifine uid generated

  pub refetch_patch : String → Option String → Exec (Launch W) (Option Json)
  unfolding refetch_optifine
  refetch_patch uid version =
      if str_eq uid "optifine.OptiFine"
      then refetch_optifine uid version
      else refetch sources.fetch patch_metadata
          (concat ("An error occurred while fetching the patch metadata (" ∷ uid ∷ ")" ∷ []))
          (concat (meta_base ∷ uid ∷ "/" ∷ file_name_of version ∷ []))

  module _ (patch_meta : Option Patch) (metadata : Dependency) where
    abbrev payload : Option (Option Patch) → ResolvePayload
    payload valid = record {
      necessaries = necessaries;
      patch_meta = patch_meta;
      metadata = metadata;
      valid_patch = valid;
    }

    abbrev validated : Option Patch → Exec (Launch W) (Option Patch)
    validated valid = do
      answer ← catch_async_response_hooks sources.hooks.after (payload (some valid))
      or_else answer (pure valid)

    abbrev of_file : Outcome (Option Json) → Exec (Launch W) (Option Patch)
    of_file (throw e) = pure none
    of_file (ok json) = validated (sources.validate json)

    pub read_file : Option String → Exec (Launch W) (Option Json)
    unfolding refetch_patch
    read_file version =
        handle_json_file sources.files necessaries.directories.base
          ("cache" ∷ metadata.uid ∷ file_name_of version ∷ []) (refetch_patch metadata.uid version)
          (some (record { days = 7; get_new_value = refetch_patch metadata.uid version }))

    pub read_patch : Option String → Exec (Launch W) (Option Patch)
    unfolding read_file
    read_patch version = do
      set_status patch_metadata.reading
      json ← attempt (read_file version)
      of_file json

    pub resolve_unanswered : Exec (Launch W) (Option Patch)
    unfolding read_patch
    resolve_unanswered = do
      version ← resolve_patch_version sources.files sources.fetch necessaries metadata
      read_patch version

    unfoldable pub resolve_patch : Exec (Launch W) (Option Patch)
    unfolding resolve_unanswered
    resolve_patch = do
      answer ← catch_async_response_hooks sources.hooks.before (payload none)
      or_else answer resolve_unanswered
