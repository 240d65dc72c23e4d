-- ===== src/Patches/Version/Chosen.antt =====
-- Which version resolvePatchVersion takes.
use mathlib.Core.Option.{some-injective}
use mathlib.Core.Path.{subst}
use kaede.Prelude.Dictionary.{Dictionary, get}
use kaede.Exec.{Exec}
use kaede.Network.Metadata.{refetch}
use kaede.Prelude.{sym, ap, String, Option, none, some, [], ◌∷◌, ◌≡◌, refl}
use kaede.Prelude.Text.{concat}
use kaede.Outcome.{Outcome, ok, throw}
use kaede.FileManager.{file_join}
use kaede.FileManager.JsonFile.{Files}
use kaede.FileManager.JsonFile.Cache.{Origin, handle_json_file-Origin}
use kaede.Json.{
  Json, null, bool, number, text, array, object, Items, cons, Fields, read, member, first_item,
  as_text,
}
use kaede.Network.Http.{Fetch}
use kaede.Statuses.{Launch, set_current}
use kaede.Meta.{Dependency, Necessaries}
use kaede.Patches.Version.{
  selected_version, latest_version, patch_index, refetch_index, read_index, of_latest, of_index,
  read_version, or_read, or_specified, resolve_patch_version,
}

-- No version is selected for the patch.
abbrev pub IsUnselected : Option (Dictionary String) → String → Type 0
IsUnselected none uid = Unit
IsUnselected (some versions) uid = get uid versions ≡ none

-- The index is an object whose first version is an object with this text as its version.
pub record HasFirst (index : Option Json) (version : String) : Type 0 where
  pub fields : Fields
  pub is_object : index ≡ some (object fields)
  pub first : Fields
  pub rest : Items
  pub versions : read "versions" fields ≡ some (array (cons (object first) rest))
  pub has_version : read "version" first ≡ some (text version)

as_text-inv : (o : Option Json) (s : String) → as_text o ≡ some s → o ≡ some (text s)
as_text-inv none s h = absurd (cc)
as_text-inv (some (text t)) s h = ap (λ x. some (text x)) (some-injective t s h)
as_text-inv (some null) s h = absurd (cc)
as_text-inv (some (bool b)) s h = absurd (cc)
as_text-inv (some (number n)) s h = absurd (cc)
as_text-inv (some (array items)) s h = absurd (cc)
as_text-inv (some (object fields)) s h = absurd (cc)

HasFirst-of_latest :
    (index : Option Json) (version : String)
    → latest_version index ≡ some version
    → HasFirst index version
HasFirst-of_latest (some (object fields)) version h = go (read "versions" fields) refl h
  where
    go :
        (o : Option Json)
        → read "versions" fields ≡ o
        → as_text (member "version" (first_item o)) ≡ some version
        → HasFirst (some (object fields)) version
    go (some (array (cons (object first) rest))) e k = record {
      fields = fields;
      is_object = refl;
      first = first;
      rest = rest;
      versions = e;
      has_version = as_text-inv (read "version" first) version k;
    }
    go _ e k = absurd (cc)
HasFirst-of_latest _ version h = absurd (cc)

module _ {W : Type 0} (files : Files (Launch W)) (fetch : Fetch (Launch W))
    (necessaries : Necessaries) where
  -- `fetchMetadata` of the index from the meta server, or its failure as an exception
  abbrev pub from_server : String → Exec (Launch W) (Option Json)
  from_server uid =
      refetch fetch patch_index
        (concat ("An error occurred while fetching the index manifest (" ∷ uid ∷ ")" ∷ []))
        (concat ("https://meta.prismlauncher.org/v1/" ∷ uid ∷ []))

  -- The first version of an index that is in the cache or was fetched.
  abbrev pub IsLatest : String → String → Type 0
  IsLatest uid version =
      (index : Option Json) × HasFirst index version
      × Origin files
          (file_join files.delimiter
            (necessaries.directories.base ∷ "cache" ∷ concat (uid ∷ ".json" ∷ []) ∷ []))
          (from_server uid) (some (record { days = 7; get_new_value = from_server uid })) index

  abbrev pub IsRead : String → Option String → Type 0
  IsRead uid none = Unit
  IsRead uid (some version) = IsLatest uid version

  -- Where the result comes from, in the order in which the sources are asked.
  pub data IsChosen (metadata : Dependency) (result : Option String) (s s' : Launch W)
      : Type 0 where
    selected :
        (versions : Dictionary String) (version : String)
        → necessaries.versions ≡ some versions
        → get metadata.uid versions ≡ some version
        → result ≡ some version
        → s' ≡ s
        → IsChosen metadata result s s'
    equal :
        (version : String)
        → IsUnselected necessaries.versions metadata.uid
        → metadata.equals ≡ some version
        → result ≡ some version
        → s' ≡ s
        → IsChosen metadata result s s'
    suggested :
        (version : String)
        → IsUnselected necessaries.versions metadata.uid
        → metadata.equals ≡ none
        → metadata.suggests ≡ some version
        → result ≡ some version
        → s' ≡ s
        → IsChosen metadata result s s'
    latest :
        IsUnselected necessaries.versions metadata.uid
        → metadata.equals ≡ none
        → metadata.suggests ≡ none
        → IsRead metadata.uid result
        → IsChosen metadata result s s'

  of_latest-eq :
      (latest result : Option String) (version : String) (s s' : Launch W)
      → of_latest files fetch necessaries latest s ≡ (ok result, s')
      → result ≡ some version
      → latest ≡ some version
  of_latest-eq (some v) result version s s' h e = cc
  of_latest-eq none result version s s' h e = absurd (cc)

  of_index-IsLatest :
      (uid : String) (tried : Outcome (Option Json)) (version : String) (s t s' : Launch W)
      → read_index files fetch necessaries uid s ≡ (tried, t)
      → of_index files fetch necessaries tried t ≡ (ok (some version), s')
      → IsLatest uid version
  unfolding read_index refetch_index
  of_index-IsLatest uid (throw e) version s t s' ran h = absurd (cc)
  of_index-IsLatest uid (ok index) version s t s' ran h = (
    index,
    HasFirst-of_latest index version
        (of_latest-eq (latest_version index) (some version) version t s' h refl),
    handle_json_file-Origin files _ _ _ _ index s t ran,
  )

  read_version-IsRead :
      (uid : String) (result : Option String) (s s' : Launch W)
      → read_version files fetch necessaries uid s ≡ (ok result, s')
      → IsRead uid result
  unfolding read_version
  read_version-IsRead uid none s s' h = tt
  read_version-IsRead uid (some version) (w, s) s' h =
      let start : Launch W = (w, set_current patch_index.reading s) in
      let tried = read_index files fetch necessaries uid start in
      of_index-IsLatest uid tried.0 version start tried.1 s' refl h

  same_result :
      (v : String) (result : Option String) (s s' : Launch W)
      → ◌≡◌ {A = Outcome (Option String) × Launch W} (ok (some v), s) (ok result, s')
      → (result ≡ some v) × (s' ≡ s)
  same_result v result s s' h = (cc, cc)

  -- If resolvePatchVersion returns, the result is the version that the user has selected for the
  -- patch, or else the one that the dependency equals, or else the one that it suggests, and the
  -- state has not changed; and where there is none of these, the result is false or the version
  -- of the first entry of an index that handleJsonFile returns from the cache or the meta server.
  pub resolve_patch_version-IsChosen :
      (metadata : Dependency) (result : Option String) (s s' : Launch W)
      → resolve_patch_version files fetch necessaries metadata s ≡ (ok result, s')
      → IsChosen metadata result s s'
  unfolding resolve_patch_version
  resolve_patch_version-IsChosen metadata result s s' h = of_versions necessaries.versions refl h
    where
      of_suggests :
          (suggests : Option String)
          → metadata.suggests ≡ suggests
          → metadata.equals ≡ none
          → IsUnselected necessaries.versions metadata.uid
          → or_read files fetch necessaries metadata.uid suggests s ≡ (ok result, s')
          → IsChosen metadata result s s'
      of_suggests (some v) e none_equals unselected k =
          let (is, unchanged) = same_result v result s s' k in
          suggested v unselected none_equals e is unchanged
      of_suggests none e none_equals unselected k =
          latest unselected none_equals e (read_version-IsRead metadata.uid result s s' k)

      of_equals :
          (equals : Option String)
          → metadata.equals ≡ equals
          → IsUnselected necessaries.versions metadata.uid
          → or_read files fetch necessaries metadata.uid
              (elim equals [ none ↦ metadata.suggests | some v ↦ some v ])
              s
            ≡ (ok result, s')
          → IsChosen metadata result s s'
      of_equals (some v) e unselected k =
          let (is, unchanged) = same_result v result s s' k in equal v unselected e is unchanged
      of_equals none e unselected k = of_suggests metadata.suggests refl e unselected k

      of_selected :
          (versions : Dictionary String) (o : Option String)
          → necessaries.versions ≡ some versions
          → get metadata.uid versions ≡ o
          → or_specified files fetch necessaries metadata o s ≡ (ok result, s')
          → IsChosen metadata result s s'
      of_selected versions (some v) e found k =
          let (is, unchanged) = same_result v result s s' k in
          selected versions v e found is unchanged
      of_selected versions none e found k =
          of_equals metadata.equals refl (subst (λ o. IsUnselected o metadata.uid) (sym e) found) k

      of_versions :
          (o : Option (Dictionary String))
          → necessaries.versions ≡ o
          → or_specified files fetch necessaries metadata (selected_version o metadata.uid) s
            ≡ (ok result, s')
          → IsChosen metadata result s s'
      of_versions none e k =
          of_equals metadata.equals refl (subst (λ o. IsUnselected o metadata.uid) (sym e) tt) k
      of_versions (some versions) e k = of_selected versions (get metadata.uid versions) e refl k
