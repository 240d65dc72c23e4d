-- ===== src/Launching/Directories.antt =====
-- validators: ensure-minecraft-directory.ts, ensure-patch-directories.ts,
-- initialize-assets-directories.ts and initialize-short-hash-directories.ts.
use kaede.Prelude.{String, Bool, true, false, not, List, [], ◌∷◌, ◌++◌, map, filter}
use kaede.Prelude.Text.{concat}
use kaede.Exec.{Exec, pure, lift, attempt, ◌>>=◌, ◌>>◌}
use kaede.FileManager.{file_join}
use kaede.Statuses.{Launch}
use kaede.Meta.{Necessaries}
use kaede.Fetching.Platform.{Platform, both_done, has, make_directories}

-- PatchUIDs and the values of CustomPatches
abbrev pub patch_uids : List String
patch_uids =
    "com.azul.java" ∷ "com.mumfrey.liteloader" ∷ "net.adoptium.java" ∷ "net.fabricmc.fabric-loader"
    ∷ "net.fabricmc.intermediary" ∷ "net.minecraft" ∷ "net.minecraft.java" ∷ "net.minecraftforge"
    ∷ "net.neoforged" ∷ "org.lwjgl" ∷ "org.lwjgl3" ∷ "org.quiltmc.quilt-loader"
    ∷ "optifine.OptiFine" ∷ "org.mcphackers.launchwrapper" ∷ []

abbrev hex_digits : List String
hex_digits =
    "0" ∷ "1" ∷ "2" ∷ "3" ∷ "4" ∷ "5" ∷ "6" ∷ "7" ∷ "8" ∷ "9" ∷ "a" ∷ "b" ∷ "c" ∷ "d" ∷ "e" ∷ "f"
    ∷ []

-- all texts of a digit of the first list and one of the second
pairs_of : List String → List String → List String
pairs_of [] lows = []
pairs_of (high ∷ highs) lows = map (λ low. concat (high ∷ low ∷ [])) lows ++ pairs_of highs lows

-- "00" to "ff"
pub short_hashes : List String
unfolding pairs_of
short_hashes = pairs_of hex_digits hex_digits

module _ {W : Type 0} (platform : Platform W) (necessaries : Necessaries) where
  abbrev make_unless : Bool → String → Exec (Launch W) (Unit {0})
  make_unless true directory = pure tt
  make_unless false directory = platform.make_directory true directory

  unfoldable pub ensure_minecraft_directory : Exec (Launch W) (Unit {0})
  ensure_minecraft_directory = do
    directory_exists ← platform.files.exists necessaries.directories.instance_dir
    make_unless directory_exists necessaries.directories.instance_dir

  abbrev patch_directory : String → String
  patch_directory uid =
      file_join platform.files.delimiter (necessaries.directories.base ∷ "cache" ∷ uid ∷ [])

  abbrev unless_exists : Bool → String → List String → List String
  unless_exists true directory rest = rest
  unless_exists false directory rest = directory ∷ rest

  -- `toCreate`
  missing_directories : List String → Exec (Launch W) (List String)
  missing_directories [] = pure []
  missing_directories (uid ∷ uids) = do
    status ← platform.files.exists (patch_directory uid)
    rest ← missing_directories uids
    pure (unless_exists status (patch_directory uid) rest)

  unfoldable pub ensure_patch_directories : Exec (Launch W) (Unit {0})
  unfolding missing_directories
  ensure_patch_directories = do
    to_create ← missing_directories patch_uids
    make_directories platform false to_create

  abbrev short_hash_path : String → String
  short_hash_path hash =
      file_join platform.files.delimiter (necessaries.directories.asset_objects ∷ hash ∷ [])

  abbrev is_absent : List String → String → Bool
  is_absent existing hash = not (has hash existing)

  unfoldable pub initialize_short_hash_directories : Exec (Launch W) (Unit {0})
  unfolding short_hashes
  initialize_short_hash_directories = do
    existing ← platform.read_directory necessaries.directories.asset_objects
    make_directories platform false (map short_hash_path (filter (is_absent existing) short_hashes))

  -- the two that are looked for; Promise.all where both are absent
  abbrev make_absent : Bool → Bool → Exec (Launch W) (Unit {0})
  make_absent true true = pure tt
  make_absent true false = platform.make_directory false necessaries.directories.asset_objects
  make_absent false true = platform.make_directory false necessaries.directories.asset_indexes
  make_absent false false = do
    indexes_made ← attempt (platform.make_directory false necessaries.directories.asset_indexes)
    objects_made ← attempt (platform.make_directory false necessaries.directories.asset_objects)
    lift (both_done indexes_made objects_made)

  unfoldable pub initialize_assets_directories : Exec (Launch W) (Unit {0})
  initialize_assets_directories = do
    indexes_exist ← platform.files.exists necessaries.directories.asset_indexes
    objects_exist ← platform.files.exists necessaries.directories.asset_objects
    make_absent indexes_exist objects_exist
    initialize_short_hash_directories
