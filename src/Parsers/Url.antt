-- ===== src/Parsers/Url.antt =====
-- build-url-from-base.ts; `false` is `none`, and the warning is left out.
pub mod Layout
use kaede.Prelude.{String, Option, none, some, List, [], ◌∷◌, str_eq, if◌then◌else◌}
use kaede.Prelude.Text.{split, join, concat, ends_with}

abbrev pub ensure_slash : String → String
ensure_slash base = if ends_with base b'/' then "" else "/"

-- from the parts of the name after `shift`
build_from : (base file : String) → List String → Option String
build_from base file [] = none
build_from base file (group ∷ rest) =
    if str_eq group ""
    then none
    else some (
        concat (
          base
          ∷ ensure_slash base
          ∷ join "/" (join "/" (split b'.' group) ∷ rest)
          ∷ "/"
          ∷ file
          ∷ []))

unfoldable pub build_url_from_base : (base name file : String) → Option String
unfolding build_from
build_url_from_base base name file = build_from base file (split b':' name)
