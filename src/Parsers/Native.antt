-- ===== src/Parsers/Native.antt =====
-- check-is-native.ts and parse-native.ts; `false` is `none`, and the log is left out.
pub mod Laws
use kaede.Prelude.{
  String, zero, suc, Bool, true, false, Option, none, some, List, [], ◌∷◌, str_eq, default,
  if◌then◌else◌, ◌&&◌, ◌||◌, not,
}
use kaede.Prelude.Text.{split, join, concat, includes}
use kaede.Outcome.{Outcome, ok, throw, ◌>>=◌}
use kaede.FileManager.{file_join}
use kaede.Meta.{Download, Downloads, Library, Artifact, native, Necessaries}
use kaede.Parsers.Platform.{
  Platform, windows, macos, linux, Arch, UnifiedArch, any, exactly, unify_platform_with_arch,
}
use kaede.Parsers.Rules.{platform_eq, arch_eq}
use kaede.Parsers.ArtifactPath.{NormalizedPath, truthy, normalize_artifact_path}

-- `library?.downloads?.classifiers`, `library?.downloads?.artifact?.url` and `…?.sha1`
abbrev pub classifiers_of : Library → Option (List (String × (String × String)))
classifiers_of library = elim library.downloads [ none ↦ none | some d ↦ d.classifiers ]

abbrev pub artifact_of : Library → Option Download
artifact_of library = elim library.downloads [ none ↦ none | some d ↦ d.artifact ]

abbrev pub url_of : Library → Option String
url_of library = elim (artifact_of library) [ none ↦ none | some a ↦ a.url ]

abbrev pub sha1_of : Library → Option String
sha1_of library = elim (artifact_of library) [ none ↦ none | some a ↦ a.sha1 ]

unfoldable pub check_is_native : Library → Bool
check_is_native library = elim (truthy library.name) [
  | none ↦ false
  | some name ↦ elim (classifiers_of library) [ none ↦ includes name "native" | some c ↦ true ]
]

-- the architecture test of natives: "any" fits every machine
abbrev pub is_native_arch : UnifiedArch → Arch → Bool
is_native_arch any arch = true
is_native_arch (exactly unified) arch = arch_eq unified arch

-- `platform === "macos" ? "osx" : platform`
abbrev platform_text : Platform → String
platform_text windows = "windows"
platform_text macos = "osx"
platform_text linux = "linux"

-- `currentNaming.pop() ?? "jar"`, and what is left
abbrev popped : List String → String
popped [] = "jar"
popped (x ∷ []) = x
popped (x ∷ y ∷ xs) = popped (y ∷ xs)

abbrev rest_of_pop : List String → List String
rest_of_pop [] = []
rest_of_pop (x ∷ []) = []
rest_of_pop (x ∷ y ∷ xs) = x ∷ rest_of_pop (y ∷ xs)

-- `requiredName`: the file with "-natives-platform" before its extension
unfoldable pub required_name : Platform → String → String
required_name platform file =
    let naming = split b'.' file in
    concat (
      join "." (rest_of_pop naming)
      ∷ concat ("-natives-" ∷ platform_text platform ∷ [])
      ∷ "."
      ∷ popped naming
      ∷ [])

module _ (delimiter : String) (necessaries : Necessaries) where
  -- the object that `parseNative` returns
  native_artifact : (name directory file path url hash : String) → List String → Artifact
  native_artifact name directory file path url hash exclude = record {
    id = concat (name ∷ "-natives" ∷ []);
    path = path;
    file = file;
    directory = directory;
    url = url;
    hash = hash;
    status = some native;
    first = some false;
    exclude = some exclude;
  }

  -- whether the platform and the architecture of a classifier fit
  fits : Platform × UnifiedArch → Bool
  fits (p, a) = platform_eq p necessaries.platform && is_native_arch a necessaries.arch

  -- the new format, which has no classifiers
  parse_new_native :
      (name directory file path : String)
      → List String
      → Option String
      → (url hash : Option String) → Outcome (Option Artifact)
  parse_new_native name directory file path exclude none (some url) (some hash) =
      ok (some (native_artifact name directory file path url hash exclude))
  parse_new_native name directory file path exclude (some classifier) (some url) (some hash) = do
    unified ← unify_platform_with_arch classifier
    ok (
        if fits unified
        then some (native_artifact name directory file path url hash exclude)
        else none)
  parse_new_native name directory file path exclude classifier _ _ = ok none

  -- the loop over the entries of `classifiers`
  parse_classifiers :
      (name directory file : String)
      → List String
      → List (String × (String × String))
      → Outcome (Option Artifact)
  parse_classifiers name directory file exclude [] = ok none
  parse_classifiers name directory file exclude ((key, (sha1, url)) ∷ classifiers) = do
    unified ← unify_platform_with_arch key
    (let rest = parse_classifiers name directory file exclude classifiers in
        let required = required_name necessaries.platform file in
        if not (fits unified)
        then rest
        else ok (
            some (
              native_artifact name directory required
                (file_join delimiter (directory ∷ required ∷ [])) url sha1 exclude)))

  -- after the name is known, from its normalized path
  parse_native_at : Library → String → NormalizedPath → Outcome (Option Artifact)
  parse_native_at library name place =
      let directory =
        file_join delimiter (necessaries.directories.libraries ∷ place.directory ∷ []) in
      let path = file_join delimiter (directory ∷ place.file ∷ []) in
      let exclude = default [] library.exclude in
      elim (classifiers_of library) [
        | none ↦
            parse_new_native name directory place.file path exclude place.classifier
              (url_of library) (sha1_of library)
        | some classifiers ↦ parse_classifiers name directory place.file exclude classifiers
      ]

  -- `parseNative` from the name of the library
  parse_named_native : Library → Option String → Outcome (Option Artifact)
  parse_named_native library none = ok none
  parse_named_native library (some name) = do
    place ← normalize_artifact_path delimiter name
    parse_native_at library name place

  unfoldable pub parse_native : Library → Outcome (Option Artifact)
  unfolding parse_named_native parse_native_at parse_new_native parse_classifiers fits
      native_artifact required_name
  parse_native library = parse_named_native library library.name
