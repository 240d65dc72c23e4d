-- ===== src/OptiFine/Patch.antt =====
-- optifine/generate-optifine-patch.ts and resolve-optifine-patch.ts: the metadata of the patch, which
-- comes in the place of that of a meta server.
pub mod Content
pub mod Laws
use kaede.Prelude.{String, ℕ, Option, none, some, List, [], ◌∷◌}
use kaede.Prelude.Text.{concat}
use kaede.Outcome.{Outcome, ok, throw}
use kaede.Exec.{Exec, pure, attempt, ◌>>=◌}
use kaede.Json.{Json, number, text, array, object, Items, nil, cons, Fields, end, field}
use kaede.Statuses.{Launch}
use kaede.Meta.{Necessaries}
use kaede.OptiFine.Version.{ParsedVersion, parse_optifine_version}
use kaede.OptiFine.Jar.{
  Jars, artifact_name, download_url, Bundled, download_optifine_jar, inspect_optifine_jar,
  extract_launch_wrapper,
}

-- the name and the path of LaunchWrapper
abbrev pub Wrapper : Type 0
Wrapper = String × String

abbrev pub wrapper_name : Bundled → String
wrapper_name bundled = concat ("net.minecraft:launchwrapper:of-" ∷ bundled.version ∷ [])

-- the result of `describeArtifact`, with the fields that may come after its own
abbrev pub described : (name url hash : String) → ℕ → Fields → Json
described name url hash size more = object (
    field "name" (text name) (
      field "downloads"
        (object (
          field "artifact"
            (object
              (field "sha1" (text hash) (field "size" (number size) (field "url" (text url) end))))
            end))
        more))

-- the two results of Promise.all in `try`
abbrev pub both_read : Outcome String → Outcome ℕ → Option (String × ℕ)
both_read (ok hash) (ok size) = some (hash, size)
both_read (ok hash) (throw e) = none
both_read (throw e) size = none

-- `{ ...described, "MMC-hint": "local" }`
abbrev pub local_hint : Fields
local_hint = field "MMC-hint" (text "local") end

abbrev pub vanilla_wrapper : Json
vanilla_wrapper = object (field "name" (text "net.minecraft:launchwrapper:1.12") end)

abbrev pub patch_of : (version minecraft_version : String) → (wrapper optifine : Json) → Json
patch_of version minecraft_version wrapper optifine = object (
    field "version" (text version) (
      field "formatVersion" (number 1) (
        field "name" (text "OptiFine") (
          field "uid" (text "optifine.OptiFine") (
            field "mainClass" (text "net.minecraft.launchwrapper.Launch") (
              field "+tweakers" (array (cons (text "optifine.OptiFineTweaker") nil)) (
                field "+libraries" (array (cons wrapper (cons optifine nil))) (
                  field "requires"
                    (array (
                      cons
                        (object (
                          field "uid" (text "net.minecraft")
                            (field "equals" (text minecraft_version) end)))
                        nil))
                    end))))))))

module _ {W B : Type 0} (jars : Jars W B) (necessaries : Necessaries) where
  -- The hash and the size of the file; the rest of the result is put together by `described`.
  pub describe_artifact : String → Exec (Launch W) (Option (String × ℕ))
  describe_artifact path = do
    hash ← attempt (jars.hash_file path)
    size ← attempt (jars.size_of path)
    pure (both_read hash size)

  abbrev with_wrapper :
      (version minecraft_version : String) → Json → Option Json → Exec (Launch W) (Option Json)
  with_wrapper version minecraft_version optifine none = pure none
  with_wrapper version minecraft_version optifine (some wrapper) =
      pure (some (patch_of version minecraft_version wrapper optifine))

  abbrev described_wrapper : Wrapper → Option (String × ℕ) → Option Json
  described_wrapper wrapper none = none
  described_wrapper (name, path) (some (hash, size)) = some (described name "" hash size local_hint)

  abbrev wrapper_of : Option Wrapper → Exec (Launch W) (Option Json)
  wrapper_of none = pure (some vanilla_wrapper)
  wrapper_of (some (name, path)) = do
    read ← describe_artifact path
    pure (described_wrapper (name, path) read)

  abbrev with_optifine :
      (version minecraft_version url : String)
      → Option Wrapper
      → Option (String × ℕ)
      → Exec (Launch W) (Option Json)
  with_optifine version minecraft_version url wrapper none = pure none
  with_optifine version minecraft_version url wrapper (some (hash, size)) = do
    library ← wrapper_of wrapper
    with_wrapper version minecraft_version (described (artifact_name version) url hash size end)
        library

  unfoldable pub generate_optifine_patch :
      (version minecraft_version jar url : String) → Option Wrapper → Exec (Launch W) (Option Json)
  unfolding describe_artifact
  generate_optifine_patch version minecraft_version jar url wrapper = do
    read ← describe_artifact jar
    with_optifine version minecraft_version url wrapper read

  abbrev with_extracted :
      String → ParsedVersion → String → Bundled → Option String → Exec (Launch W) (Option Json)
  with_extracted version parsed jar bundled none = pure none
  with_extracted version parsed jar bundled (some path) =
      generate_optifine_patch version parsed.minecraft_version jar (download_url parsed)
        (some (wrapper_name bundled, path))

  abbrev with_bundled :
      String → ParsedVersion → String → Option Bundled → Exec (Launch W) (Option Json)
  with_bundled version parsed jar none =
      generate_optifine_patch version parsed.minecraft_version jar (download_url parsed) none
  with_bundled version parsed jar (some bundled) = do
    extracted ← extract_launch_wrapper jars necessaries jar bundled
    with_extracted version parsed jar bundled extracted

  abbrev with_jar : String → ParsedVersion → Option String → Exec (Launch W) (Option Json)
  with_jar version parsed none = pure none
  with_jar version parsed (some jar) = do
    bundled ← inspect_optifine_jar jars necessaries jar
    with_bundled version parsed jar bundled

  abbrev with_parsed : String → Option ParsedVersion → Exec (Launch W) (Option Json)
  with_parsed version none = pure none
  with_parsed version (some parsed) = do
    jar ← download_optifine_jar jars necessaries parsed version
    with_jar version parsed jar

  unfoldable pub resolve_optifine_patch : String → Exec (Launch W) (Option Json)
  resolve_optifine_patch version = with_parsed version (parse_optifine_version version)
