-- ===== src/Parsers/Finalize/Unique.antt =====
-- The map of unique artifacts that finalize-patches.ts builds: each identity once, under its own
-- key, the last artifact with an identity wins, and what is in the classpath stays there.
use mathlib.Core.Path.{subst}
use mathlib.Core.List.{reverse}
use kaede.Prelude.{
  String, Bool, true, false, Option, none, some, List, [], ◌∷◌, ◌++◌, map, ◌≡◌, refl, sym, ap, ◌∙◌,
  ◌⊎◌, inl, inr, arith, str_eq, eq_iff, if◌then◌else◌, Bool-cases,
}
use kaede.Prelude.Dictionary.{Dictionary, HasDistinctKeys, get, put, get-put, put-HasDistinctKeys}
use kaede.Outcome.{ok}
use kaede.Exec.{>>=-eq-ok, pure_inj}
use kaede.Statuses.{LauncherStatuses}
use kaede.Meta.{ArtifactStatus, library, empty, Entry, Artifact, Patch, FinalizedPatch, Necessaries}
use kaede.Parsers.Libraries.{LibrariesHooks, parse_libraries}
use kaede.Parsers.Finalize.{
  Building, initial, kept_status, with_status, add_artifact, add_all, add_artifacts_to_map,
  add_patch, add_patches, finalize_patches, after_round,
}
use kaede.Parsers.Finalize.Rounds.{add_patch-Round}

-- Every artifact stands under its own identity.
abbrev pub HasOwnKeys : Dictionary Artifact → Type 0
HasOwnKeys [] = Unit
HasOwnKeys ((k, a) ∷ d) = (k ≡ a.id) × HasOwnKeys d

pub record IsUnique (d : Dictionary Artifact) : Type 0 where
  pub distinct : HasDistinctKeys d
  pub own : HasOwnKeys d

-- The status of a stored artifact puts it into the classpath.
abbrev pub IsListed : Option ArtifactStatus → Type 0
IsListed status = (status ≡ some library) ⊎ (status ≡ some empty)

-- The artifact under a key is in the classpath.
abbrev pub InClasspath : String → Dictionary Artifact → Type 0
InClasspath id d = (a : Artifact) × (get id d ≡ some a) × IsListed a.status

put-HasOwnKeys : (a : Artifact) (d : Dictionary Artifact) → HasOwnKeys d → HasOwnKeys (put a.id a d)
unfolding put
put-HasOwnKeys a [] h = (refl, tt)
put-HasOwnKeys a ((k, b) ∷ d) (e, h) = ground (arith, put-HasOwnKeys a d h)

id-with_status : (o : Option ArtifactStatus) (a : Artifact) → (with_status o a).id ≡ a.id
id-with_status none a = refl
id-with_status (some s) a = refl

module _ (is_first : Option Bool) where
  -- what is put under the key
  abbrev stored : Artifact → Dictionary Artifact → Artifact
  stored artifact d =
      with_status (kept_status (get artifact.id d)) (record artifact { first = is_first })

  add_artifact-IsUnique :
      (a : Artifact) (d : Dictionary Artifact) → IsUnique d → IsUnique (add_artifact is_first a d)
  unfolding add_artifact
  add_artifact-IsUnique a d u = record {
    distinct = put-HasDistinctKeys a.id (stored a d) d u.distinct;
    own =
        subst (λ k. HasOwnKeys (put k (stored a d) d))
          (id-with_status (kept_status (get a.id d)) (record a { first = is_first }))
          (put-HasOwnKeys (stored a d) d u.own);
  }

  add_all-IsUnique :
      (artifacts : List Artifact) (d : Dictionary Artifact)
      → IsUnique d
      → IsUnique (add_all is_first artifacts d)
  unfolding add_all
  add_all-IsUnique [] d u = u
  add_all-IsUnique (a ∷ artifacts) d u =
      add_all-IsUnique artifacts (add_artifact is_first a d) (add_artifact-IsUnique a d u)

  stored-IsListed :
      (a b : Artifact) (d : Dictionary Artifact)
      → get a.id d ≡ some b
      → IsListed b.status
      → IsListed (stored a d).status
  stored-IsListed a b d e l = rw e (ground arith)

  add_artifact-InClasspath :
      (a : Artifact) (id : String) (d : Dictionary Artifact)
      → InClasspath id d
      → InClasspath id (add_artifact is_first a d)
  unfolding add_artifact
  add_artifact-InClasspath a id d (b, e, l) = elim (Bool-cases (str_eq a.id id)) [
    | inl same ↦ (
      stored a d,
      get-put a.id id (stored a d) d ∙ rw same refl,
      stored-IsListed a b d (ap (λ k. get k d) ((eq_iff a.id id).0 same) ∙ e) l,
    )
    | inr other ↦ (b, get-put a.id id (stored a d) d ∙ rw other e, l)
  ]

  add_all-InClasspath :
      (artifacts : List Artifact) (id : String) (d : Dictionary Artifact)
      → InClasspath id d
      → InClasspath id (add_all is_first artifacts d)
  unfolding add_all
  add_all-InClasspath [] id d h = h
  add_all-InClasspath (a ∷ artifacts) id d h =
      add_all-InClasspath artifacts id (add_artifact is_first a d)
        (add_artifact-InClasspath a id d h)

-- What an invariant of the map needs to be one of the whole loop.
module _ (P : Dictionary Artifact → Type 0)
    (keep : (f : Option Bool) (more : List Artifact) (d : Dictionary Artifact)
      → P d
      → P (add_all f more d))
    (delimiter : String) (hooks : LibrariesHooks) (necessaries : Necessaries) where
  add_artifacts-keep :
      (f : Option Bool) (entries : Option (List Entry)) (d d' : Dictionary Artifact)
      (s s' : LauncherStatuses)
      → add_artifacts_to_map delimiter hooks necessaries f entries d s ≡ (ok d', s')
      → P d
      → P d'
  unfolding add_artifacts_to_map
  add_artifacts-keep f none d d' s s' h p = subst P (cc) p
  add_artifacts-keep f (some entries) d d' s s' h p =
      let (more, t, parsed, rest) =
        >>=-eq-ok (parse_libraries delimiter necessaries false hooks entries) _ h in
      subst P (cc) (keep f more d p)

  add_patch-keep :
      (patch : Patch) (b b' : Building) (s s' : LauncherStatuses)
      → add_patch delimiter hooks necessaries patch b s ≡ (ok b', s')
      → P b.unique
      → P b'.unique
  unfolding after_round
  add_patch-keep patch b b' s s' h p =
      let r = add_patch-Round delimiter hooks necessaries patch b b' s s' h in
      subst (λ (c : Building). P c.unique) r.result
        (add_artifacts-keep (some true) patch.plus_libraries r.with_libraries r.with_plus r.s2 r.s3
          r.plus_step
          (add_artifacts-keep none patch.libraries b.unique r.with_libraries r.s1 r.s2
            r.libraries_step p))

  pub add_patches-keep :
      (patches : List Patch) (b b' : Building) (s s' : LauncherStatuses)
      → add_patches delimiter hooks necessaries patches b s ≡ (ok b', s')
      → P b.unique
      → P b'.unique
  unfolding add_patches
  add_patches-keep [] b b' s s' h p = subst P (cc) p
  add_patches-keep (patch ∷ patches) b b' s s' h p =
      let (next, t, ran, rest) = >>=-eq-ok (add_patch delimiter hooks necessaries patch b) _ h in
      add_patches-keep patches next b' t s' rest (add_patch-keep patch b next s t ran p)

-- The last artifact of a list with an identity.
abbrev pub last_with : String → List Artifact → Option Artifact
last_with id [] = none
last_with id (a ∷ artifacts) = elim (last_with id artifacts) [
  | none ↦ if str_eq a.id id then some a else none
  | some b ↦ some b
]

-- What an identity maps to after a list of artifacts.
abbrev Wins : Option Bool → Option Artifact → Option Artifact → Option Artifact → Type 0
Wins f none before after = after ≡ before
Wins f (some a) before after =
    (b : Artifact) × (after ≡ some b) × (record a { first = f; status = b.status } ≡ b)

record-with_status :
    (o : Option ArtifactStatus) (a : Artifact) (f : Option Bool)
    → record a { first = f; status = (with_status o (record a { first = f })).status }
      ≡ with_status o (record a { first = f })
record-with_status none a f = refl
record-with_status (some s) a f = refl

module _ (f : Option Bool) (id : String) where
  get-add_all :
      (artifacts : List Artifact) (d : Dictionary Artifact)
      → Wins f (last_with id artifacts) (get id d) (get id (add_all f artifacts d))
  unfolding add_all
  get-add_all [] d = refl
  get-add_all (a ∷ artifacts) d =
      go (last_with id artifacts) (get-add_all artifacts (add_artifact f a d))
    where
      go :
          (o : Option Artifact)
          → Wins f o
              (get id (add_artifact f a d))
              (get id (add_all f artifacts (add_artifact f a d)))
          → Wins f
              (elim o [ none ↦ if str_eq a.id id then some a else none | some b ↦ some b ])
              (get id d)
              (get id (add_all f artifacts (add_artifact f a d)))
      go (some b) ih = ih
      go none ih =
          last (str_eq a.id id) (ih ∙ unfold add_artifact in get-put a.id id (stored f a d) d)
        where
          last :
              (b : Bool)
              → get id (add_all f artifacts (add_artifact f a d))
                ≡ (if b then some (stored f a d) else get id d)
              → Wins f
                  (if b then some a else none)
                  (get id d)
                  (get id (add_all f artifacts (add_artifact f a d)))
          last true e = (stored f a d, e, record-with_status (kept_status (get a.id d)) a f)
          last false e = e

  -- If an identity occurs in a list of artifacts that addArtifactsToMap adds, the map has after
  -- it, under that identity, the last artifact of the list with it, of which only the mark first
  -- is set and the status may be another one.
  pub get-add_all_last :
      (artifacts : List Artifact) (d : Dictionary Artifact) (a : Artifact)
      → last_with id artifacts ≡ some a
      → (b : Artifact) × (get id (add_all f artifacts d) ≡ some b)
        × (record a { first = f; status = b.status } ≡ b)
  get-add_all_last artifacts d a h = rw h at (get-add_all artifacts d)

  -- An identity that does not occur in the list keeps its artifact.
  pub get-add_all_absent :
      (artifacts : List Artifact) (d : Dictionary Artifact)
      → last_with id artifacts ≡ none
      → get id (add_all f artifacts d) ≡ get id d
  get-add_all_absent artifacts d h = rw h at (get-add_all artifacts d)

module _ (delimiter : String) (hooks : LibrariesHooks) (necessaries : Necessaries) where
  -- If finalizePatches returns, the artifacts of the finalized patch are the maven files and then
  -- the unique artifacts of the loop over the reversed patches, and among these every identity
  -- stands once, under the artifact's own identity as its key. The hooks of the libraries are
  -- arbitrary.
  pub finalize_patches-IsUnique :
      (patches : List Patch) (p : FinalizedPatch) (s s' : LauncherStatuses)
      → finalize_patches delimiter hooks necessaries patches s ≡ (ok p, s')
      → (b : Building) × (add_patches delimiter hooks necessaries (reverse patches) initial s
          ≡ (ok b, s'))
        × (p.artifacts ≡ b.maven_files ++ map (λ entry. entry.1) b.unique)
        × IsUnique b.unique
  unfolding finalize_patches
  finalize_patches-IsUnique patches p s s' h =
      let (b, t, ran, rest) =
        >>=-eq-ok (add_patches delimiter hooks necessaries (reverse patches) initial) _ h in
      let end = pure_inj _ p t s' rest in
      (
        b,
        ran ∙ ap (λ u. (ok b, u)) end.1,
        ap (λ (q : FinalizedPatch). q.artifacts) (sym end.0),
        add_patches-keep IsUnique add_all-IsUnique delimiter hooks necessaries (reverse patches)
            initial b s t ran (record { distinct = tt; own = tt }),
      )

  -- If the loop of finalizePatches returns and an identity stood in the map of unique artifacts
  -- with the status library or empty before it, then it stands there with one of these two after
  -- it, whatever the patches and the hooks of the libraries say of it.
  pub add_patches-InClasspath :
      (patches : List Patch) (id : String) (b b' : Building) (s s' : LauncherStatuses)
      → add_patches delimiter hooks necessaries patches b s ≡ (ok b', s')
      → InClasspath id b.unique
      → InClasspath id b'.unique
  add_patches-InClasspath patches id b b' s s' h c =
      add_patches-keep (InClasspath id) (λ f more d p. add_all-InClasspath f more id d p) delimiter
        hooks necessaries patches b b' s s' h c
