-- ===== src/OptiFine/Patch/Content.antt =====
-- generate-optifine-patch.ts: the fields of the patch and of its libraries.
use kaede.Prelude.{String, ℕ, some, ◌≡◌, refl}
use kaede.Json.{Json, text, number, array, object, nil, cons, Fields, end, read}
use kaede.OptiFine.Patch.{described, local_hint, patch_of}

-- A library with a name and one artifact, with its address, hash and size.
pub record IsLibrary (fields : Fields) (name url hash : String) (size : ℕ) : Type 0 where
  pub has_name : read "name" fields ≡ some (text name)
  pub downloads : Fields
  pub has_downloads : read "downloads" fields ≡ some (object downloads)
  pub artifact : Fields
  pub has_artifact : read "artifact" downloads ≡ some (object artifact)
  pub has_url : read "url" artifact ≡ some (text url)
  pub has_hash : read "sha1" artifact ≡ some (text hash)
  pub has_size : read "size" artifact ≡ some (number size)

-- The metadata of OptiFine's patch: its two libraries in their order, and the version of the game
-- that it requires.
pub record HasFields (version minecraft_version : String) (wrapper optifine : Fields) (patch : Json)
    : Type 0 where
  pub fields : Fields
  pub is_object : patch ≡ object fields
  pub has_uid : read "uid" fields ≡ some (text "optifine.OptiFine")
  pub has_version : read "version" fields ≡ some (text version)
  pub has_main_class : read "mainClass" fields ≡ some (text "net.minecraft.launchwrapper.Launch")
  pub has_tweakers :
      read "+tweakers" fields ≡ some (array (cons (text "optifine.OptiFineTweaker") nil))
  pub has_libraries :
      read "+libraries" fields ≡ some (array (cons (object wrapper) (cons (object optifine) nil)))
  pub required : Fields
  pub has_requires : read "requires" fields ≡ some (array (cons (object required) nil))
  pub requires_game : read "uid" required ≡ some (text "net.minecraft")
  pub requires_version : read "equals" required ≡ some (text minecraft_version)

pub patch_of-HasFields :
    (version minecraft_version : String) (wrapper optifine : Fields)
    → HasFields version minecraft_version wrapper optifine
        (patch_of version minecraft_version (object wrapper) (object optifine))
unfolding read
patch_of-HasFields version minecraft_version wrapper optifine = record {
  fields = _;
  is_object = refl;
  has_uid = refl;
  has_version = refl;
  has_main_class = refl;
  has_tweakers = refl;
  has_libraries = refl;
  required = _;
  has_requires = refl;
  requires_game = refl;
  requires_version = refl;
}

-- A library as `describeArtifact` gives it.
abbrev pub library_fields : Json → Fields
library_fields (object fields) = fields
library_fields _ = end

pub described-IsLibrary :
    (name url hash : String) (size : ℕ)
    → IsLibrary (library_fields (described name url hash size end)) name url hash size
unfolding read
described-IsLibrary name url hash size = record {
  has_name = refl;
  downloads = _;
  has_downloads = refl;
  artifact = _;
  has_artifact = refl;
  has_url = refl;
  has_hash = refl;
  has_size = refl;
}

pub local-IsLibrary :
    (name url hash : String) (size : ℕ)
    → IsLibrary (library_fields (described name url hash size local_hint)) name url hash size
unfolding read
local-IsLibrary name url hash size = record {
  has_name = refl;
  downloads = _;
  has_downloads = refl;
  artifact = _;
  has_artifact = refl;
  has_url = refl;
  has_hash = refl;
  has_size = refl;
}
