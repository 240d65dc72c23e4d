-- ===== src/Fetching/Assets.antt =====
-- download-assets.ts, and validators/shallowly-validate-meta.ts
use Prim.Native.String.{[] as empty_text, ◌∷◌ as cons_char}
use kaede.Prelude.{String, Bool, true, false, Option, none, some, List, [], ◌∷◌, map, filter}
use kaede.Prelude.Text.{concat}
use kaede.Prelude.Dictionary.{Dictionary, put}
use kaede.Outcome.{Outcome, ok, throw, type_error}
use kaede.Exec.{Exec, pure, lift, attempt, ◌>>=◌, ◌>>◌}
use kaede.FileManager.{file_join}
use kaede.FileManager.JsonFile.{handle_json_file}
use kaede.Json.{
  Json, Items, Fields, null, text, array, object, nil, cons, end, field, member, as_text,
}
use kaede.Network.Download.{DownloadEntry}
use kaede.Network.Call.{concurrently_download}
use kaede.Network.Metadata.{ScopeStatuses, refetch}
use kaede.Statuses.{Launch, set_status}
use kaede.Meta.{AssetIndex, FinalizedPatch, Necessaries}
use kaede.Fetching.Platform.{Platform, has, verify_paths}

-- `LaunchStatus.AssetIndex`
abbrev pub asset_index_statuses : ScopeStatuses
asset_index_statuses = record {
  reading = "asset-index-pending-reading";
  fetching = "asset-index-pending-fetching";
  failed_to_fetch = "asset-index-error-fetch";
  failed_to_parse = "asset-index-error-parse";
  failed_to_validate = "asset-index-error-validation";
}

-- an entry of `mappedAssetObjects`
pub record AssetObject : Type 0 where
  pub short_hash_path : String
  pub hash : String
  pub url : String
  pub path : String

-- s.slice(0, 2)
abbrev first_two : String → String
first_two empty_text = ""
first_two (cons_char a empty_text) = cons_char a ""
first_two (cons_char a (cons_char b s)) = cons_char a (cons_char b "")

-- the values of an object, a key that is given twice with its last value
entries_of : Fields → Dictionary Json → Dictionary Json
entries_of end found = found
entries_of (field key value fields) found = entries_of fields (put key value found)

items_of : Items → List Json
items_of nil = []
items_of (cons item items) = item ∷ items_of items

abbrev value_of : String × Json → Json
value_of (key, value) = value

characters : String → List Json
characters empty_text = []
characters (cons_char c s) = text (cons_char c "") ∷ characters s

-- Object.values(…); a text gives its characters, which have no hash
values_of : Json → Outcome (List Json)
unfolding entries_of items_of characters
values_of (object fields) = ok (map value_of (entries_of fields []))
values_of (array items) = ok (items_of items)
values_of null = throw (type_error "Cannot convert undefined or null to object")
values_of (text s) = ok (characters s)
values_of _ = ok []

-- `shallowlyValidateMeta`, with `objects` of a valid index
abbrev pub shallowly_validate_meta : Option Json → Option Json
shallowly_validate_meta (some (object fields)) = member "objects" (some (object fields))
shallowly_validate_meta _ = none

-- `hash.slice`, which throws where there is no text
abbrev hash_of : Json → Outcome String
hash_of value = elim (as_text (member "hash" (some value))) [
  | some hash ↦ ok hash
  | none ↦ throw (type_error "Cannot read properties of undefined")
]

module _ {W : Type 0} (platform : Platform W) (necessaries : Necessaries)
    (patch : FinalizedPatch) where
  abbrev asset_at : String → String → AssetObject
  asset_at short_hash hash =
      let short_hash_path =
        file_join platform.files.delimiter
          (necessaries.directories.asset_objects ∷ short_hash ∷ []) in
      record {
        short_hash_path = short_hash_path;
        hash = hash;
        url = concat ("https://resources.download.minecraft.net/" ∷ short_hash ∷ "/" ∷ hash ∷ []);
        path = file_join platform.files.delimiter (short_hash_path ∷ hash ∷ []);
      }

  -- the `map` over the values
  map_assets : List Json → Outcome (List AssetObject)
  map_assets [] = ok []
  map_assets (value ∷ values) =
      let rest = map_assets values in
      elim (hash_of value) [
        | throw e ↦ throw e
        | ok hash ↦ elim rest [
          | throw e ↦ throw e
          | ok assets ↦ ok (asset_at (first_two hash) hash ∷ assets)
        ]
      ]

  abbrev path_and_hash_of : AssetObject → String × String
  path_and_hash_of asset = (asset.path, asset.hash)

  abbrev is_missing_asset : List String → AssetObject → Bool
  is_missing_asset missing asset = has asset.path missing

  abbrev asset_entry : AssetObject → DownloadEntry
  asset_entry asset = record { url = asset.url; path = asset.path }

  abbrev after_assets : Bool → Exec (Launch W) Bool
  after_assets true = pure false
  after_assets false = do set_status "asset-objects-success"; pure true

  fetch_assets : List AssetObject → Exec (Launch W) Bool
  fetch_assets assets = do
    missing ← verify_paths platform necessaries.checksum (map path_and_hash_of assets)
    report ←
        concurrently_download platform.backend
          (map asset_entry (filter (is_missing_asset missing) assets))
    after_assets report.cancelled

  abbrev of_objects : Option Json → Exec (Launch W) Bool
  of_objects none = do set_status asset_index_statuses.failed_to_validate; pure false
  of_objects (some objects) = do
    values ← lift (values_of objects)
    assets ← lift (map_assets values)
    fetch_assets assets

  abbrev of_index : Outcome (Option Json) → Exec (Launch W) Bool
  of_index (throw e) = pure false
  of_index (ok index) = of_objects (shallowly_validate_meta index)

  abbrev meta_filename : String → String
  meta_filename id = concat (id ∷ ".json" ∷ [])

  abbrev refetch_assets : String → String → Exec (Launch W) (Option Json)
  refetch_assets id url =
      refetch platform.fetch asset_index_statuses
        (concat
          ("An error occurred while fetching the asset index (" ∷ meta_filename id ∷ ")" ∷ []))
        url

  read_assets : String → String → Exec (Launch W) Bool
  unfolding fetch_assets values_of map_assets
  read_assets id url = do
    set_status asset_index_statuses.reading
    index ← attempt (
        handle_json_file platform.files necessaries.directories.base
          ("assets" ∷ "indexes" ∷ meta_filename id ∷ []) (refetch_assets id url)
          (some (record { days = 7; get_new_value = refetch_assets id url })))
    of_index index

  abbrev of_fields : Option String → Option String → Exec (Launch W) Bool
  of_fields (some id) (some url) = read_assets id url
  of_fields _ _ = do set_status "asset-index-error-get"; pure false

  abbrev of_asset_index : Option AssetIndex → Exec (Launch W) Bool
  of_asset_index none = of_fields none none
  of_asset_index (some asset_index) = of_fields asset_index.id asset_index.url

  unfoldable pub download_assets : Exec (Launch W) Bool
  unfolding read_assets
  download_assets = of_asset_index patch.asset_index
