-- ===== src/Patches/Version.antt =====
-- resolve-patch-version.ts: the version of a patch, where `false` is `none`.
pub mod Laws
pub mod Chosen
use kaede.Prelude.{String, Option, none, some, [], ◌∷◌}
use kaede.Prelude.Text.{concat}
use kaede.Prelude.Dictionary.{Dictionary, get}
use kaede.Outcome.{Outcome, ok, throw}
use kaede.Exec.{Exec, pure, attempt, ◌>>=◌, ◌>>◌}
use kaede.Json.{Json, member, first_item, as_text}
use kaede.FileManager.JsonFile.{Files, handle_json_file}
use kaede.Network.Http.{Fetch}
use kaede.Network.Metadata.{ScopeStatuses, refetch}
use kaede.Statuses.{Launch, set_status}
use kaede.Meta.{Dependency, Necessaries}

-- `LaunchStatus.PatchIndex`
abbrev pub patch_index : ScopeStatuses
patch_index = record {
  reading = "patch-index-pending-reading";
  fetching = "patch-index-pending-fetching";
  failed_to_fetch = "patch-index-error-fetch";
  failed_to_parse = "patch-index-error-parse";
  failed_to_validate = "patch-index-error-validation";
}

-- APIEndpoints.Meta.Base
abbrev pub meta_base : String
meta_base = "https://meta.prismlauncher.org/v1/"

-- `versions?.[uid]`
abbrev pub selected_version : Option (Dictionary String) → String → Option String
selected_version none uid = none
selected_version (some versions) uid = get uid versions

-- `equals ?? suggests`
abbrev pub specified_version : Dependency → Option String
specified_version metadata = elim metadata.equals [ none ↦ metadata.suggests | some v ↦ some v ]

-- `index.versions[0].version`, if it is a string
abbrev pub latest_version : Option Json → Option String
latest_version index = as_text (member "version" (first_item (member "versions" index)))

module _ {W : Type 0} (files : Files (Launch W)) (fetch : Fetch (Launch W))
    (necessaries : Necessaries) where
  abbrev of_latest : Option String → Exec (Launch W) (Option String)
  of_latest (some version) = pure (some version)
  of_latest none = do set_status patch_index.failed_to_validate; pure none

  abbrev of_index : Outcome (Option Json) → Exec (Launch W) (Option String)
  of_index (throw e) = pure none
  of_index (ok index) = of_latest (latest_version index)

  pub refetch_index : String → Exec (Launch W) (Option Json)
  refetch_index uid =
      refetch fetch patch_index
        (concat ("An error occurred while fetching the index manifest (" ∷ uid ∷ ")" ∷ []))
        (concat (meta_base ∷ uid ∷ []))

  pub read_index : String → Exec (Launch W) (Option Json)
  unfolding refetch_index
  read_index uid =
      handle_json_file files necessaries.directories.base
        ("cache" ∷ concat (uid ∷ ".json" ∷ []) ∷ []) (refetch_index uid)
        (some (record { days = 7; get_new_value = refetch_index uid }))

  pub read_version : String → Exec (Launch W) (Option String)
  unfolding read_index
  read_version uid = do
    set_status patch_index.reading
    index ← attempt (read_index uid)
    of_index index

  abbrev or_read : String → Option String → Exec (Launch W) (Option String)
  or_read uid (some version) = pure (some version)
  or_read uid none = read_version uid

  abbrev or_specified : Dependency → Option String → Exec (Launch W) (Option String)
  or_specified metadata (some version) = pure (some version)
  or_specified metadata none = or_read metadata.uid (specified_version metadata)

  unfoldable pub resolve_patch_version : Dependency → Exec (Launch W) (Option String)
  unfolding read_version
  resolve_patch_version metadata =
      or_specified metadata (selected_version necessaries.versions metadata.uid)
