-- ===== src/Parsers/Library/Placement.antt =====
-- Where parse-library.ts puts an artifact, and with which identity, status and hash.
use kaede.Prelude.{
  String, Bool, true, false, Option, none, some, [], ◌∷◌, ◌≡◌, refl, ◌⊎◌, arith, if◌then◌else◌, not,
  ◌&&◌,
}
use kaede.Outcome.{ok, >>=-eq-ok}
use kaede.FileManager.{file_join}
use kaede.Meta.{Library, Artifact, library, Necessaries}
use kaede.Parsers.ArtifactPath.{NormalizedPath, normalize_artifact_path}
use kaede.Parsers.Native.{sha1_of}
use kaede.Parsers.Library.{
  maven_status, is_local, library_artifact, from_base, from_downloads, parse_remote,
  parse_library_at, parse_named, parse_library,
}

-- `isEmpty`, of a library that is not local
abbrev pub is_bare : Library → Bool
is_bare lib =
    not (is_local lib)
    && elim lib.url [ none ↦ elim lib.downloads [ none ↦ true | some d ↦ false ] | some u ↦ false ]

module _ (delimiter : String) (necessaries : Necessaries) (is_maven : Bool) where
  pub record IsPlaced (lib : Library) (place : NormalizedPath) (a : Artifact) : Type 0 where
    pub id : a.id ≡ place.id
    pub file : a.file ≡ place.file
    pub directory :
        a.directory ≡ file_join delimiter (necessaries.directories.libraries ∷ place.directory ∷ [])
    pub path : a.path ≡ file_join delimiter (a.directory ∷ a.file ∷ [])
    pub first : a.first ≡ some false
    pub status : a.status ≡ some (if is_bare lib then library else maven_status is_maven)
    pub hash : (a.hash ≡ "ignore") ⊎ (sha1_of lib ≡ some a.hash)

  parse_remote-IsPlaced :
      (lib : Library) (name : String) (place : NormalizedPath) (a : Artifact)
      → is_local lib ≡ false
      → parse_remote delimiter necessaries is_maven lib name place ≡ some a
      → IsPlaced lib place a
  unfolding parse_remote from_base from_downloads library_artifact
  parse_remote-IsPlaced lib name place a far h = ground arith

  parse_library_at-IsPlaced :
      (lib : Library) (name : String) (place : NormalizedPath) (a : Artifact)
      → parse_library_at delimiter necessaries is_maven lib name place ≡ some a
      → IsPlaced lib place a
  unfolding parse_library_at library_artifact
  parse_library_at-IsPlaced lib name place a h =
      ground (arith, parse_remote-IsPlaced lib name place a)

  named-IsPlaced :
      (lib : Library) (named : Option String) (a : Artifact)
      → parse_named delimiter necessaries is_maven lib named ≡ ok (some a)
      → (name : String) × (place : NormalizedPath) × (named ≡ some name)
        × (normalize_artifact_path delimiter name ≡ ok place)
        × IsPlaced lib place a
  unfolding parse_named
  named-IsPlaced lib none a h = absurd (cc)
  named-IsPlaced lib (some name) a h =
      let (place, placed, made) = >>=-eq-ok (normalize_artifact_path delimiter name) _ h in
      (name, place, refl, placed, parse_library_at-IsPlaced lib name place a (cc))

  -- If parseLibrary makes an artifact, the library has a name with a normalized path, and the
  -- artifact has that path's identity and file, lies in the libraries' folder at its directory,
  -- is not marked first, and has the hash that the library states or the word ignore; its status
  -- is library for an entry that is not local and has neither a URL nor downloads, also in the
  -- list of maven files, and is that of the list it stands in for every other entry.
  pub parse_library-IsPlaced :
      (lib : Library) (a : Artifact)
      → parse_library delimiter necessaries is_maven lib ≡ ok (some a)
      → (name : String) × (place : NormalizedPath) × (lib.name ≡ some name)
        × (normalize_artifact_path delimiter name ≡ ok place)
        × IsPlaced lib place a
  unfolding parse_library
  parse_library-IsPlaced lib a h = named-IsPlaced lib lib.name a h
