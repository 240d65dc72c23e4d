-- ===== src/Parsers/MainJar/Laws.antt =====
-- What parse-main-jar.ts makes of the metadata, and when it reports a failure.
use mathlib.Core.Path.{subst, subst₂}
use kaede.Prelude.{String, Option, none, some, [], ◌∷◌, ◌≡◌, refl, sym, ap, ◌⊎◌, inl, inr}
use kaede.Outcome.{Outcome, ok}
use kaede.Exec.{lift, >>=-eq-ok, pure_inj}
use kaede.FileManager.{file_join}
use kaede.Statuses.{LauncherStatuses, client_failed_to_parse, set_current}
use kaede.Meta.{Patch, Artifact, Necessaries}
use kaede.Parsers.ArtifactPath.{NormalizedPath, normalize_artifact_path}
use kaede.Parsers.MainJar.{jar_name, jar_url, jar_hash, plain_artifact, parse_jar, parse_main_jar}

module _ (delimiter : String) (necessaries : Necessaries) where
  -- The artifact is the client of the name, in the libraries' folder.
  pub record IsClient (name url hash : Option String) (a : Artifact) : Type 0 where
    pub place : NormalizedPath
    pub id : name ≡ some a.id
    pub placed : normalize_artifact_path delimiter a.id ≡ ok place
    pub source : url ≡ some a.url
    pub sum : hash ≡ some a.hash
    pub file : a.file ≡ place.file
    pub directory :
        a.directory ≡ file_join delimiter (necessaries.directories.libraries ∷ place.directory ∷ [])
    pub path : a.path ≡ file_join delimiter (a.directory ∷ a.file ∷ [])

  -- One of the three is missing.
  abbrev pub IsLacking : Option String → Option String → Option String → Type 0
  IsLacking name url hash = (name ≡ none) ⊎ ((url ≡ none) ⊎ (hash ≡ none))

  -- A result with its statuses: the client and the statuses as they were, or a failure with its
  -- reason, which is reported.
  abbrev pub Parsed :
      (name url hash : Option String)
      → Option Artifact
      → LauncherStatuses
      → LauncherStatuses
      → Type 0
  Parsed name url hash none s s' =
      IsLacking name url hash × (s' ≡ set_current client_failed_to_parse s)
  Parsed name url hash (some a) s s' = IsClient name url hash a × (s' ≡ s)

  Parsed-none :
      (name url hash : Option String) (r : Option Artifact) (s s' : LauncherStatuses)
      → IsLacking name url hash
      → ◌≡◌ {A = Outcome (Option Artifact) × LauncherStatuses}
          (ok none, set_current client_failed_to_parse s)
          (ok r, s')
      → Parsed name url hash r s s'
  Parsed-none name url hash r s s' lacking h =
      let (same, end) = pure_inj none r (set_current client_failed_to_parse s) s' h in
      subst₂ (λ o v. Parsed name url hash o s v) same end (lacking, refl)

  Parsed-some :
      (name url hash : Option String) (a : Artifact) (r : Option Artifact) (s s' : LauncherStatuses)
      → IsClient name url hash a
      → ◌≡◌ {A = Outcome (Option Artifact) × LauncherStatuses} (ok (some a), s) (ok r, s')
      → Parsed name url hash r s s'
  Parsed-some name url hash a r s s' p h =
      let (same, end) = pure_inj (some a) r s s' h in
      subst₂ (λ o v. Parsed name url hash o s v) same end (p, refl)

  parse_jar-Parsed :
      (name url hash : Option String) (r : Option Artifact) (s s' : LauncherStatuses)
      → parse_jar delimiter necessaries name url hash s ≡ (ok r, s')
      → Parsed name url hash r s s'
  unfolding parse_jar
  parse_jar-Parsed (some name) (some url) (some hash) r s s' h =
      let (place, t, first, more) =
        >>=-eq-ok {S = LauncherStatuses} (lift (normalize_artifact_path delimiter name)) _ h in
      let start : t ≡ s = sym (ap (λ q. q.1) first) in
      subst
        (λ v.
          ◌≡◌ {A = Outcome (Option Artifact) × LauncherStatuses} (ok (some (made place)), v)
            (ok r, s')
          → Parsed (some name) (some url) (some hash) r s s')
        (sym start)
        (Parsed-some (some name) (some url) (some hash) (made place) r s s' (record {
          place = place;
          id = refl;
          placed = ap (λ q. q.0) first;
          source = refl;
          sum = refl;
          file = refl;
          directory = refl;
          path = refl;
        }))
        more
    where
      made : NormalizedPath → Artifact
      made place =
          let directory =
            file_join delimiter (necessaries.directories.libraries ∷ place.directory ∷ []) in
          plain_artifact name (file_join delimiter (directory ∷ place.file ∷ [])) place.file
            directory url hash
  parse_jar-Parsed none url hash r s s' h = Parsed-none none url hash r s s' (inl refl) h
  parse_jar-Parsed (some name) none hash r s s' h =
      Parsed-none (some name) none hash r s s' (inr (inl refl)) h
  parse_jar-Parsed (some name) (some url) none r s s' h =
      Parsed-none (some name) (some url) none r s s' (inr (inr refl)) h

  -- If parseMainJar returns, either the name, the URL or the hash of the client is missing and
  -- the status says that the client failed to parse, or the artifact has the three of them, lies
  -- in the libraries' folder at the path of its name, and the statuses are as they were.
  pub parse_main_jar-Parsed :
      (patch : Patch) (r : Option Artifact) (s s' : LauncherStatuses)
      → parse_main_jar delimiter necessaries patch s ≡ (ok r, s')
      → Parsed (jar_name patch.main_jar) (jar_url patch.main_jar) (jar_hash patch.main_jar) r s s'
  unfolding parse_main_jar
  parse_main_jar-Parsed patch r s s' h =
      parse_jar-Parsed (jar_name patch.main_jar) (jar_url patch.main_jar) (jar_hash patch.main_jar)
        r s s' h
