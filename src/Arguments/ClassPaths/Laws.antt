-- ===== src/Arguments/ClassPaths/Laws.antt =====
-- Which paths stand in the classpath, and in which order.
use mathlib.Core.List.{reverse, reverse-cons, append_assoc, append-nil}
use mathlib.Core.Path.{subst}
use mathlib.Core.Bool.{true≢false}
use kaede.Prelude.{
  ℕ, String, Bool, true, false, Option, List, [], ◌∷◌, ◌++◌, ◌≡◌, ◌≢◌, refl, sym, ap, ◌∙◌, arith,
  All, eq_iff,
}
use kaede.Prelude.Text.{join, split, Free}
use kaede.Prelude.Text.Splitting.{split-join}
use kaede.Prelude.Unique.{has, to_set, IsDistinct, has-to_set, to_set-IsDistinct, All-to_set}
use kaede.Outcome.{ok}
use kaede.Exec.{pure}
use kaede.Hooks.{Hook, IsSilent}
use kaede.Hooks.Laws.{async_share-of_IsSilent}
use kaede.Parsers.Platform.{Platform, windows, macos, linux}
use kaede.Meta.{Artifact, FinalizedPatch, Necessaries}
use kaede.Arguments.ClassPaths.{
  ClassPaths, should_be_included, is_first, place, gather, with_client, path_separator,
  class_paths_of, get_class_paths,
}

-- The paths of the included artifacts with and without the flag `first`.
abbrev paths_where : Bool → List Artifact → List String
paths_where flag [] = []
paths_where flag (artifact ∷ artifacts) =
    let rest = paths_where flag artifacts in
    elim (should_be_included artifact.status) [
      | false ↦ rest
      | true ↦ elim (is_first artifact) [
        | false ↦ elim flag [ false ↦ artifact.path ∷ rest | true ↦ rest ]
        | true ↦ elim flag [ false ↦ rest | true ↦ artifact.path ∷ rest ]
      ]
    ]

-- The last "first" artifact is foremost; the others keep their order, and the client is the last.
abbrev pub class_path : FinalizedPatch → List String
class_path patch =
    with_client patch.client
      (reverse (paths_where true patch.artifacts) ++ paths_where false patch.artifacts)

gather-eq :
    (artifacts : List Artifact) (paths : List String)
    → gather artifacts paths
      ≡ reverse (paths_where true artifacts) ++ paths ++ paths_where false artifacts
unfolding gather
gather-eq [] paths = sym (append-nil paths)
gather-eq (artifact ∷ artifacts) paths =
    gather-eq artifacts
      (place (should_be_included artifact.status) (is_first artifact) artifact.path paths)
    ∙ go (should_be_included artifact.status) (is_first artifact)
  where
    go :
        (included first : Bool)
        → reverse (paths_where true artifacts)
            ++ place included first artifact.path paths
            ++ paths_where false artifacts
          ≡ reverse (elim included [
            | false ↦ paths_where true artifacts
            | true ↦ elim first [
              | false ↦ paths_where true artifacts
              | true ↦ artifact.path ∷ paths_where true artifacts
            ]
          ])
            ++ paths
            ++ elim included [
              | false ↦ paths_where false artifacts
              | true ↦ elim first [
                | false ↦ artifact.path ∷ paths_where false artifacts
                | true ↦ paths_where false artifacts
              ]
            ]
    go false first = refl
    go true true =
        ap (λ l. l ++ paths_where false artifacts)
          (sym (append_assoc (reverse (paths_where true artifacts)) (artifact.path ∷ []) paths)
            ∙ ap (λ l. l ++ paths) (sym (reverse-cons artifact.path (paths_where true artifacts))))
    go true false =
        ap (λ l. l ++ paths_where false artifacts)
          (sym (append_assoc (reverse (paths_where true artifacts)) paths (artifact.path ∷ [])))
        ∙ append_assoc (reverse (paths_where true artifacts) ++ paths) (artifact.path ∷ [])
            (paths_where false artifacts)

abbrev pub separator : Platform → ℕ
separator windows = 59
separator macos = 58
separator linux = 58

split-join-separator :
    (platform : Platform) (paths : List String)
    → paths ≢ []
    → All (Free (separator platform)) paths
    → split (separator platform) (join (path_separator platform) paths) ≡ paths
split-join-separator platform [] n h = absurd (n refl)
split-join-separator windows (p ∷ ps) n h = split-join ";" p ps h
split-join-separator macos (p ∷ ps) n h = split-join ":" p ps h
split-join-separator linux (p ∷ ps) n h = split-join ":" p ps h

has-head : (x : String) (xs : List String) → has x (x ∷ xs) ≡ true
unfolding has
has-head x xs = ground (arith, eq_iff x x)

has-nil : (x : String) → has x [] ≡ false
unfolding has
has-nil x = refl

to_set-ne-nil : (xs : List String) → xs ≢ [] → to_set xs ≢ []
to_set-ne-nil [] h e = h refl
to_set-ne-nil (x ∷ xs) h e =
    true≢false (sym (has-head x xs) ∙ sym (has-to_set x (x ∷ xs)) ∙ ap (has x) e ∙ has-nil x)

-- The text of the classpath, read back by the separator of the platform.
pub record IsClassPath (necessaries : Necessaries) (patch : FinalizedPatch) (text : String)
    : Type 0 where
  pub entries : split (separator necessaries.platform) text ≡ to_set (class_path patch)
  pub same :
      (path : String)
      → has path (split (separator necessaries.platform) text) ≡ has path (class_path patch)
  pub distinct : IsDistinct (split (separator necessaries.platform) text)

gathered :
    (patch : FinalizedPatch)
    → with_client patch.client (gather patch.artifacts []) ≡ class_path patch
gathered patch = ap (with_client patch.client) (
    gather-eq patch.artifacts []
    ∙ ap (λ l. l ++ paths_where false patch.artifacts)
        (append-nil (reverse (paths_where true patch.artifacts))))

pub get_class_paths-of_IsSilent :
    {S : Type 0}
    (before : Option (List (Hook (S × List String) (Necessaries × FinalizedPatch) ClassPaths)))
    (necessaries : Necessaries) (patch : FinalizedPatch) (s : S)
    → IsSilent before
    → get_class_paths before necessaries patch s
      ≡ (ok (class_paths_of necessaries.platform (class_path patch)), s)
unfolding get_class_paths
get_class_paths-of_IsSilent before necessaries patch s silent =
    async_share-of_IsSilent before (necessaries, patch)
      (with_client patch.client (gather patch.artifacts []))
      (λ paths. pure (class_paths_of necessaries.platform paths)) s silent
    ∙ ap (λ paths. (ok (class_paths_of necessaries.platform paths), s)) (gathered patch)

IsClassPath-of_to_set :
    (necessaries : Necessaries) (patch : FinalizedPatch) (text : String)
    → split (separator necessaries.platform) text ≡ to_set (class_path patch)
    → IsClassPath necessaries patch text
IsClassPath-of_to_set necessaries patch text e = record {
  entries = e;
  same = λ path. ap (has path) e ∙ has-to_set path (class_path patch);
  distinct = subst IsDistinct (sym e) (to_set-IsDistinct (class_path patch));
}

-- Where no hook is registered, some artifact or the client gives a path, and no such path holds
-- the platform's separator, getClassPaths returns a text that splits at the separator into the
-- paths without repetition, in the order of their first occurrence, of this list: the artifacts
-- in the classpath that are marked first, the last of them foremost, then the others in their
-- order, then the client.
pub get_class_paths-IsClassPath :
    {S : Type 0}
    (before : Option (List (Hook (S × List String) (Necessaries × FinalizedPatch) ClassPaths)))
    (necessaries : Necessaries) (patch : FinalizedPatch) (s : S)
    → IsSilent before
    → class_path patch ≢ []
    → All (Free (separator necessaries.platform)) (class_path patch)
    → (found : ClassPaths) × (get_class_paths before necessaries patch s ≡ (ok found, s))
      × IsClassPath necessaries patch found.class_paths
get_class_paths-IsClassPath before necessaries patch s silent n free = (
  class_paths_of necessaries.platform (class_path patch),
  get_class_paths-of_IsSilent before necessaries patch s silent,
  IsClassPath-of_to_set necessaries patch _ (
      split-join-separator necessaries.platform (to_set (class_path patch))
        (to_set-ne-nil (class_path patch) n)
        (All-to_set (Free (separator necessaries.platform)) (class_path patch) free)),
)
