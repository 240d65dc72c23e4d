-- ===== src/Parsers/ArtifactPath.antt =====
-- normalize-artifact-path.ts: from "group:name:version[:classifier][@extension]" to a directory
-- and a file of the libraries' folder.
pub mod Coordinates
pub mod Identity
use kaede.Prelude.{
  String, zero, Option, none, some, List, [], ◌∷◌, ◌++◌, str_eq, default, if◌then◌else◌, get_elem?,
}
use kaede.Prelude.Text.{split, concat}
use kaede.Outcome.{Outcome, ok, throw, bad_artifact_path}
use kaede.FileManager.{file_join}

pub record NormalizedPath : Type 0 where
  pub directory : String
  pub file : String
  pub classifier : Option String
  pub id : String

-- A text that is absent or empty is falsy.
abbrev pub truthy : Option String → Option String
truthy none = none
truthy (some s) = if str_eq s "" then none else some s

abbrev file_name : (name version extension : String) (classifier : Option String) → String
file_name name version extension none = concat (name ∷ "-" ∷ version ∷ "." ∷ extension ∷ [])
file_name name version extension (some classifier) =
    concat (name ∷ "-" ∷ version ∷ "-" ∷ classifier ∷ "." ∷ extension ∷ [])

module _ (delimiter : String) where
  -- the end of `normalizeArtifactPath`, from the parts of the name and their truth values
  locate :
      (extension : String) (group name version classifier : Option String)
      → (tg tn tv : Option String) → Outcome NormalizedPath
  locate extension _ _ _ classifier (some group) (some name) (some version) = ok (record {
    directory = file_join delimiter (split b'.' group ++ name ∷ version ∷ []);
    file = file_name name version extension classifier;
    classifier = classifier;
    id = concat (group ∷ ":" ∷ name ∷ []);
  })
  locate _ group name version _ _ _ _ = throw (bad_artifact_path group name version)

  unfoldable pub normalize_artifact_path : String → Outcome NormalizedPath
  unfolding locate
  normalize_artifact_path artifact =
      let prepared = split b'@' artifact in
      let extension = default "jar" (get_elem? prepared 1) in
      let paths = split b':' (default "" (get_elem? prepared 0)) in
      let group = get_elem? paths 0 in
      let name = get_elem? paths 1 in
      let version = get_elem? paths 2 in
      locate extension group name version (get_elem? paths 3) (truthy group) (truthy name)
        (truthy version)
