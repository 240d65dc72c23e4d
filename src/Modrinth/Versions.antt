-- ===== src/Modrinth/Versions.antt =====
-- lib/modrinth/install-mrpack.ts: resolvePatchVersions, for dependencies whose keys are no names
-- that every object inherits.
use kaede.Prelude.{String, Option, none, some, [], ◌∷◌}
use kaede.Prelude.Dictionary.{Dictionary, get, put}

-- MrpackDependencies
abbrev pub mrpack_dependencies : Dictionary String
mrpack_dependencies =
    ("minecraft", "net.minecraft")
    ∷ ("fabric-loader", "net.fabricmc.fabric-loader")
    ∷ ("forge", "net.minecraftforge")
    ∷ ("neoforge", "net.neoforged")
    ∷ ("quilt-loader", "org.quiltmc.quilt-loader")
    ∷ []

abbrev pub put_if : Option String → String → Dictionary String → Dictionary String
put_if none version versions = versions
put_if (some uid) version versions = put uid version versions

-- the loop over the entries
pub add_versions : Dictionary String → Dictionary String → Dictionary String
add_versions [] versions = versions
add_versions ((key, version) ∷ dependencies) versions =
    add_versions dependencies (put_if (get key mrpack_dependencies) version versions)

abbrev pub versions_with : Option String → Dictionary String → Option (Dictionary String)
versions_with none dependencies = none
versions_with (some minecraft) dependencies =
    some (add_versions dependencies (("net.minecraft", minecraft) ∷ []))

unfoldable pub resolve_patch_versions : Dictionary String → Option (Dictionary String)
unfolding add_versions
resolve_patch_versions dependencies = versions_with (get "minecraft" dependencies) dependencies
