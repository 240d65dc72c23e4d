-- ===== src/OptiFine/Version.antt =====
-- optifine/parse-optifine-version.ts
pub mod Laws
use kaede.Prelude.{
  String, ℕ, Bool, true, false, not, ◌&&◌, Option, none, some, str_eq, if◌then◌else◌,
}
use kaede.Prelude.Text.Cutting.{cut_first, cut_last}

-- ParsedOptiFineVersionType
pub record ParsedVersion : Type 0 where
  pub minecraft_version : String
  pub type : String
  pub patch : String

-- "_"
abbrev pub separator : ℕ
separator = b'_'

-- `!minecraftVersion || !type || !patch`
abbrev pub all_filled : ParsedVersion → Bool
all_filled v =
    not (str_eq v.minecraft_version "") && not (str_eq v.type "") && not (str_eq v.patch "")

abbrev pub filled : ParsedVersion → Option ParsedVersion
filled v = if all_filled v then some v else none

-- the rest after the first separator, which is the last one too if it holds none
abbrev pub of_last : String → Option (String × String) → Option ParsedVersion
of_last minecraft_version none = none
of_last minecraft_version (some (type, patch)) =
    filled (record { minecraft_version = minecraft_version; type = type; patch = patch })

abbrev pub of_first : Option (String × String) → Option ParsedVersion
of_first none = none
of_first (some (minecraft_version, rest)) = of_last minecraft_version (cut_last separator rest)

unfoldable pub parse_optifine_version : String → Option ParsedVersion
parse_optifine_version version = of_first (cut_first separator version)
