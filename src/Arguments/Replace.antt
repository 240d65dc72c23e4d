-- ===== src/Arguments/Replace.antt =====
-- replace-launch-arguments.ts: the `${key}` placeholders of the command line. A table of
-- replacements is a dictionary; its keys have no character that is special in a regular expression.
pub mod Template
pub mod Passes
use Prim.Native.Nat.{◌-◌}
use Prim.Native.String.{[] as nil, ◌∷◌ as cons, ◌++◌ as ◌⊕◌}
use text.Mathlib.Text.{starts_with}
use kaede.Prelude.{
  ℕ, zero, suc, String, Option, none, some, List, [], ◌∷◌, map, default, if◌then◌else◌,
}
use kaede.Prelude.Text.{concat}
use kaede.Prelude.Text.Replacing.{size}
use kaede.Prelude.Dictionary.{Dictionary, get}
use kaede.Exec.{Exec, pure, ◌>>=◌, share}
use kaede.Hooks.{Hook, or_else, catch_sync_response_hooks}
use kaede.Meta.{Account, AssetIndex, Artifact, FinalizedPatch, Necessaries}

abbrev pub placeholder : String → String
placeholder key = concat ("${" ∷ key ∷ "}" ∷ [])

-- The alternative of the regular expression that matches at the start of the text: the replacement,
-- and how many characters the match has after its first.
unfoldable pub match_at : Dictionary String → String → Option (String × ℕ)
match_at [] s = none
match_at ((key, value) ∷ table) s =
    if starts_with s (placeholder key)
    then some (value, size (placeholder key) - 1)
    else match_at table s

-- argument.replace(keysRegex, ...); the number counts the characters of a match that are still
-- to be passed over
unfoldable pub replace_at : Dictionary String → ℕ → String → String
replace_at table skip nil = ""
replace_at table (suc skip) (cons c s) = replace_at table skip s
replace_at table zero (cons c s) = elim (match_at table (cons c s)) [
  | none ↦ cons c (replace_at table 0 s)
  | some found ↦ found.0 ⊕ replace_at table found.1 s
]

abbrev pub replace_placeholders : Dictionary String → String → String
replace_placeholders table s = replace_at table 0 s

abbrev asset_index_id : Option AssetIndex → String
asset_index_id none = ""
asset_index_id (some index) = default "" index.id

abbrev main_jar_path : Option Artifact → String
main_jar_path none = "none"
main_jar_path (some client) = client.path

-- `replacements`; where a match stands for `undefined`, the text "undefined" is put in its place
abbrev pub replacements_of :
    String → Account → String → Necessaries → FinalizedPatch → Dictionary String
replacements_of launcher_version auth class_paths necessaries patch =
    ("assets_index_name", asset_index_id patch.asset_index)
    ∷ ("assets_root", necessaries.directories.assets)
    ∷ ("classpath", class_paths)
    ∷ ("clientid", "")
    ∷ ("game_assets", necessaries.directories.assets)
    ∷ ("game_directory", necessaries.directories.instance_dir)
    ∷ ("launcher_name", "Kaede")
    ∷ ("launcher_version", launcher_version)
    ∷ ("natives_directory", necessaries.directories.natives)
    ∷ ("quickPlayMultiplayer", "")
    ∷ ("quickPlayPath", "")
    ∷ ("quickPlayRealms", "")
    ∷ ("quickPlaySingleplayer", "")
    ∷ ("resolution_height", necessaries.window_height)
    ∷ ("resolution_width", necessaries.window_width)
    ∷ ("user_properties", "{\"kaede\":[\"unknown\"]}")
    ∷ ("user_type", auth.type)
    ∷ ("version_name", default "undefined" (get "net.minecraft" necessaries.patch_versions))
    ∷ ("version_type", concat ("Kaede " ∷ launcher_version ∷ []))
    ∷ ("libraries_directory", necessaries.directories.libraries)
    ∷ ("main_jar_path", main_jar_path patch.client)
    ∷ []

-- `authReplacements`
abbrev pub auth_replacements_of : Account → Dictionary String
auth_replacements_of auth =
    ("auth_access_token", auth.token)
    ∷ ("auth_player_name", auth.username)
    ∷ ("auth_session", auth.token)
    ∷ ("auth_uuid", auth.uuid)
    ∷ ("auth_xuid", auth.xuid)
    ∷ []

module _ {S : Type 0} where
  -- the second part of `replaceLaunchArguments`: the first pass, and the pass with `authReplacements`
  unfoldable pub with_auth :
      Option (
        List (
          Hook
            (S × (Dictionary String × List String))
            (Necessaries × FinalizedPatch)
            (List String)))
      → Account
      → Necessaries
      → FinalizedPatch
      → (Dictionary String × List String)
      → Exec S (List String)
  with_auth after auth necessaries patch built = do
    last ←
        share (auth_replacements_of auth, built.1)
          (catch_sync_response_hooks after (necessaries, patch))
    or_else last.0
        (pure (map (replace_placeholders last.1.0) (map (replace_placeholders built.0) built.1)))

  -- The hooks get, and may change, the table of a pass and the arguments. What those after the first
  -- pass do to the arguments comes too late.
  unfoldable pub replace_launch_arguments :
      (launcher_version : String)
      → (before after : Option (
          List (
            Hook
              (S × (Dictionary String × List String))
              (Necessaries × FinalizedPatch)
              (List String))))
      → Account
      → List String
      → String
      → Necessaries
      → FinalizedPatch
      → Exec S (List String)
  replace_launch_arguments launcher_version before after auth to_replace class_paths necessaries
        patch =
      do
        answer ←
            share (replacements_of launcher_version auth class_paths necessaries patch, to_replace)
              (catch_sync_response_hooks before (necessaries, patch))
        or_else answer.0 (with_auth after auth necessaries patch answer.1)
