-- ===== src/Patches/Resolve/Total.antt =====
-- resolvePatch throws nothing: a failure is the result `false`.
use kaede.Prelude.{String, Option, none}
use kaede.Outcome.{Outcome, ok, throw}
use kaede.Exec.{attempt}
use kaede.Exec.Total.{NeverThrows, pure-NeverThrows, attempt-NeverThrows, >>=-NeverThrows}
use kaede.Hooks.Total.{or_else-NeverThrows, catch_async_response_hooks-NeverThrows}
use kaede.Json.{Json}
use kaede.Statuses.{set_status}
use kaede.Meta.{Dependency, Patch, Necessaries}
use kaede.Patches.Version.Laws.{set_status-NeverThrows, resolve_patch_version-NeverThrows}
use kaede.Patches.Resolve.{
  Sources, validated, of_file, patch_metadata, read_file, read_patch, resolve_unanswered,
  resolve_patch,
}

module _ {W : Type 0} (sources : Sources W) (necessaries : Necessaries) (patch_meta : Option Patch)
    (metadata : Dependency) where
  validated-NeverThrows :
      (valid : Option Patch) → NeverThrows (validated sources necessaries patch_meta metadata valid)
  validated-NeverThrows valid =
      >>=-NeverThrows _ _ (catch_async_response_hooks-NeverThrows sources.hooks.after _)
        (λ answer. or_else-NeverThrows answer _ (pure-NeverThrows valid))

  of_file-NeverThrows :
      (tried : Outcome (Option Json))
      → NeverThrows (of_file sources necessaries patch_meta metadata tried)
  of_file-NeverThrows (throw e) = pure-NeverThrows none
  of_file-NeverThrows (ok json) = validated-NeverThrows (sources.validate json)

  read_patch-NeverThrows :
      (version : Option String)
      → NeverThrows (read_patch sources necessaries patch_meta metadata version)
  unfolding read_patch
  read_patch-NeverThrows version =
      >>=-NeverThrows (set_status patch_metadata.reading) _
        (set_status-NeverThrows patch_metadata.reading)
        (λ _.
          >>=-NeverThrows (attempt (read_file sources necessaries patch_meta metadata version)) _
            (attempt-NeverThrows (read_file sources necessaries patch_meta metadata version))
            of_file-NeverThrows)

  resolve_unanswered-NeverThrows :
      NeverThrows (resolve_unanswered sources necessaries patch_meta metadata)
  unfolding resolve_unanswered
  resolve_unanswered-NeverThrows =
      >>=-NeverThrows _ _
        (resolve_patch_version-NeverThrows sources.files sources.fetch necessaries metadata)
        read_patch-NeverThrows

  -- resolvePatch returns a patch or false from every state: no exception of the hooks, the files,
  -- the network or the generation of a patch leaves it.
  pub resolve_patch-NeverThrows :
      NeverThrows (resolve_patch sources necessaries patch_meta metadata)
  unfolding resolve_patch
  resolve_patch-NeverThrows =
      >>=-NeverThrows _ _ (catch_async_response_hooks-NeverThrows sources.hooks.before _)
        (λ answer. or_else-NeverThrows answer _ resolve_unanswered-NeverThrows)
