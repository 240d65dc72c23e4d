-- ===== src/Parsers/Native/Laws.antt =====
-- What parse-native.ts chooses, and that a native never takes the identity of a library.
use mathlib.Core.List.{Memᴰ}
use mathlib.Core.Path.{subst}
use kaede.Prelude.{
  String, true, false, Option, none, some, List, [], ◌∷◌, ◌≡◌, refl, inl, inr, arith, Option-cases,
  Bool-cases,
}
use kaede.Prelude.Text.{concat}
use kaede.Outcome.{ok, >>=-eq-ok}
use kaede.FileManager.{file_join}
use kaede.Meta.{Library, Artifact, native, Necessaries}
use kaede.Parsers.Platform.{Unified, unify_platform_with_arch}
use kaede.Parsers.Rules.{platform_eq}
use kaede.Parsers.ArtifactPath.{NormalizedPath, normalize_artifact_path}
use kaede.Parsers.Native.{
  classifiers_of, url_of, sha1_of, is_native_arch, required_name, native_artifact, fits,
  parse_new_native, parse_classifiers, parse_native_at, parse_named_native, parse_native,
}

module _ (delimiter : String) (necessaries : Necessaries) where
  -- A name of a platform that is this machine's, natives without an architecture included.
  pub record FitsMachine (key : String) : Type 0 where
    pub unified : Unified
    pub named : unify_platform_with_arch key ≡ ok unified
    pub platform : platform_eq unified.0 necessaries.platform ≡ true
    pub arch : is_native_arch unified.1 necessaries.arch ≡ true

  -- From where the URL, the hash and the file of a native come.
  pub data Chosen (lib : Library) (place : NormalizedPath) (a : Artifact) : Type 0 where
    own_artifact :
        classifiers_of lib ≡ none
        → url_of lib ≡ some a.url
        → sha1_of lib ≡ some a.hash
        → a.file ≡ place.file
        → ((key : String) → place.classifier ≡ some key → FitsMachine key)
        → Chosen lib place a
    classified :
        (classifiers : List (String × (String × String))) (key : String)
        → classifiers_of lib ≡ some classifiers
        → Memᴰ (key, (a.hash, a.url)) classifiers
        → a.file ≡ required_name necessaries.platform place.file
        → FitsMachine key
        → Chosen lib place a

  pub record IsNativeOf (lib : Library) (name : String) (place : NormalizedPath) (a : Artifact)
      : Type 0 where
    pub id : a.id ≡ concat (name ∷ "-natives" ∷ [])
    pub directory :
        a.directory ≡ file_join delimiter (necessaries.directories.libraries ∷ place.directory ∷ [])
    pub path : a.path ≡ file_join delimiter (a.directory ∷ a.file ∷ [])
    pub status : a.status ≡ some native
    pub first : a.first ≡ some false
    pub chosen : Chosen lib place a

  FitsMachine-of_fits :
      (key : String) (u : Unified)
      → unify_platform_with_arch key ≡ ok u
      → fits delimiter necessaries u ≡ true
      → FitsMachine key
  unfolding fits
  FitsMachine-of_fits key u h f = record {
    unified = u;
    named = h;
    platform = ground arith;
    arch = ground arith;
  }

  module _ (lib : Library) (name : String) (place : NormalizedPath) (directory : String)
      (exclude : List String)
      (at : directory
        ≡ file_join delimiter (necessaries.directories.libraries ∷ place.directory ∷ [])) where
    made : (file url hash : String) → Artifact
    made file url hash =
        native_artifact delimiter necessaries name directory file
          (file_join delimiter (directory ∷ file ∷ [])) url hash exclude

    made-IsNativeOf :
        (file url hash : String) (a : Artifact)
        → made file url hash ≡ a
        → Chosen lib place (made file url hash)
        → IsNativeOf lib name place a
    unfolding made native_artifact
    made-IsNativeOf file url hash a e c =
        subst (IsNativeOf lib name place) e (record {
          id = refl;
          directory = at;
          path = refl;
          status = refl;
          first = refl;
          chosen = c;
        })

    new_native-IsNativeOf :
        (classifier url hash : Option String) (a : Artifact)
        → place.classifier ≡ classifier
        → url_of lib ≡ url
        → sha1_of lib ≡ hash
        → classifiers_of lib ≡ none
        → parse_new_native delimiter necessaries name directory place.file
            (file_join delimiter (directory ∷ place.file ∷ []))
            exclude
            classifier
            url
            hash
          ≡ ok (some a)
        → IsNativeOf lib name place a
    unfolding parse_new_native made native_artifact
    new_native-IsNativeOf none (some url) (some hash) a c u s n h =
        made-IsNativeOf place.file url hash a (cc) (own_artifact n u s refl (λ k e. absurd (cc)))
    new_native-IsNativeOf (some key) (some url) (some hash) a c u s n h =
        let (unified, known, next) = >>=-eq-ok (unify_platform_with_arch key) _ h in
        elim (Bool-cases (fits delimiter necessaries unified)) [
          | inl fit ↦
              let taken = rw fit at next in
              made-IsNativeOf place.file url hash a (cc) (
                own_artifact n u s refl
                  (λ k e. subst FitsMachine (cc) (FitsMachine-of_fits key unified known fit)))
          | inr misfit ↦ absurd (let missed = rw misfit at next in cc)
        ]
    new_native-IsNativeOf none none hash a c u s n h = absurd (cc)
    new_native-IsNativeOf none (some url) none a c u s n h = absurd (cc)
    new_native-IsNativeOf (some key) none hash a c u s n h = absurd (cc)
    new_native-IsNativeOf (some key) (some url) none a c u s n h = absurd (cc)

    classifiers-IsNativeOf :
        (all classifiers : List (String × (String × String))) (a : Artifact)
        → classifiers_of lib ≡ some all
        → ((c : String × (String × String)) → Memᴰ c classifiers → Memᴰ c all)
        → parse_classifiers delimiter necessaries name directory place.file exclude classifiers
          ≡ ok (some a)
        → IsNativeOf lib name place a
    unfolding parse_classifiers made native_artifact
    classifiers-IsNativeOf all [] a g within h = absurd (cc)
    classifiers-IsNativeOf all ((key, (sha1, url)) ∷ classifiers) a g within h =
        let (u, known, next) = >>=-eq-ok (unify_platform_with_arch key) _ h in
        elim (Bool-cases (fits delimiter necessaries u)) [
          | inl fit ↦
              let taken = rw fit at next in
              made-IsNativeOf (required_name necessaries.platform place.file) url sha1 a (cc) (
                classified all key g (within _ (Memᴰ.head refl)) refl
                  (FitsMachine-of_fits key u known fit))
          | inr misfit ↦
              classifiers-IsNativeOf all classifiers a g (λ c m. within c (Memᴰ.tail m))
                (rw misfit at next)
        ]

  native_at-IsNativeOf :
      (lib : Library) (name : String) (place : NormalizedPath) (a : Artifact)
      → parse_native_at delimiter necessaries lib name place ≡ ok (some a)
      → IsNativeOf lib name place a
  unfolding parse_native_at
  native_at-IsNativeOf lib name place a h = elim (Option-cases (classifiers_of lib)) [
    | inl absent ↦
        new_native-IsNativeOf lib name place _ _ refl place.classifier (url_of lib) (sha1_of lib) a
          refl refl refl absent (rw (absent, parse_native_at) at h)
    | inr (classifiers, given) ↦
        classifiers-IsNativeOf lib name place _ _ refl classifiers classifiers a given (λ c m. m)
          (rw (given, parse_native_at) at h)
  ]

  named-IsNativeOf :
      (lib : Library) (named : Option String) (a : Artifact)
      → parse_named_native delimiter necessaries lib named ≡ ok (some a)
      → (name : String) × (place : NormalizedPath) × (named ≡ some name)
        × (normalize_artifact_path delimiter name ≡ ok place)
        × IsNativeOf lib name place a
  unfolding parse_named_native
  named-IsNativeOf lib none a h = absurd (cc)
  named-IsNativeOf lib (some name) a h =
      let (place, placed, next) = >>=-eq-ok (normalize_artifact_path delimiter name) _ h in
      (name, place, refl, placed, native_at-IsNativeOf lib name place a next)

  -- If parseNative makes an artifact, the library has a name with a normalized path, and the
  -- artifact has the identity name-natives, the status native, and lies in the libraries' folder
  -- at that path's directory; its URL and hash are the library's own where it has no classifiers,
  -- and then a classifier in the name, if there is one, names this machine's platform and
  -- architecture, or else they are those of a classifier whose key does, and the file is the one
  -- made for the platform.
  pub parse_native-IsNativeOf :
      (lib : Library) (a : Artifact)
      → parse_native delimiter necessaries lib ≡ ok (some a)
      → (name : String) × (place : NormalizedPath) × (lib.name ≡ some name)
        × (normalize_artifact_path delimiter name ≡ ok place)
        × IsNativeOf lib name place a
  unfolding parse_native
  parse_native-IsNativeOf lib a h = named-IsNativeOf lib lib.name a h
