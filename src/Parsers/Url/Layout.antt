-- ===== src/Parsers/Url/Layout.antt =====
-- Where build-url-from-base.ts points: the folders of the URL against those of
-- normalize-artifact-path.ts, and the slash after the base.
use Prim.Native.String.{[] as text_nil, ◌∷◌ as char_cons, ◌++◌ as text_append}
use text.Mathlib.TextLemmas.{append-nil, append_assoc, cons-append, nil-append}
use kaede.Prelude.{
  String, Option, none, some, List, [], ◌∷◌, ◌++◌, ◌≡◌, ◌≢◌, refl, sym, ap, ◌∙◌, arith, eq_iff,
  str_eq, true, false, inl, inr, Bool-cases, All, filter, not,
}
use kaede.Prelude.Text.{split, join, concat, ends_with}
use kaede.Prelude.Text.Splitting.{split-ne-nil}
use kaede.FileManager.{file_join}
use kaede.Parsers.ArtifactPath.Coordinates.{
  Coordinate, IsCoordinate, cleaned, print, split-cleaned, optional,
}
use kaede.Parsers.Url.{ensure_slash, build_from, build_url_from_base}

abbrev pub IsGiven : String → Type 0
IsGiven s = s ≢ ""

filter_of_IsGiven :
    (paths : List String) → All IsGiven paths → filter (λ path. not (str_eq path "")) paths ≡ paths
filter_of_IsGiven [] h = refl
filter_of_IsGiven (p ∷ paths) (g, h) = ground (arith, eq_iff p "", filter_of_IsGiven paths h)

All-IsGiven-append :
    (xs ys : List String) → All IsGiven xs → All IsGiven ys → All IsGiven (xs ++ ys)
All-IsGiven-append [] ys hx hy = hy
All-IsGiven-append (x ∷ xs) ys (p, hx) hy = (p, All-IsGiven-append xs ys hx hy)

-- Joining a joined front with the rest.
join-append :
    (sep : String) (xs : List String) (y : String) (ys : List String)
    → xs ≢ []
    → join sep (xs ++ y ∷ ys) ≡ join sep (join sep xs ∷ y ∷ ys)
unfolding join
join-append sep [] y ys h = absurd (h refl)
join-append sep (x ∷ []) y ys h = refl
join-append sep (x ∷ z ∷ xs) y ys h =
    ap (λ t. text_append x (text_append sep t)) (join-append sep (z ∷ xs) y ys (cc))
    ∙ sym (ap (text_append x) (append_assoc sep _ _))
    ∙ sym (append_assoc x _ _)

-- the folder that a classifier adds to the URL
abbrev pub classifier_folder : Option String → String
classifier_folder none = ""
classifier_folder (some s) = text_append "/" s

join-classifier :
    (g n v : String) (c : Option String)
    → join "/" (g ∷ n ∷ v ∷ optional c)
      ≡ text_append (join "/" (g ∷ n ∷ v ∷ [])) (classifier_folder c)
unfolding join
join-classifier g n v none = sym (append-nil _)
join-classifier g n v (some s) = simp append_assoc

module _ (base file : String) (c : Coordinate) (given : IsCoordinate c)
    (folders : All IsGiven (split b'.' c.group)) where
  directory-eq-join :
      file_join "/" (split b'.' c.group ++ c.name ∷ c.version ∷ [])
      ≡ join "/" (join "/" (split b'.' c.group) ∷ c.name ∷ c.version ∷ [])
  unfolding file_join
  directory-eq-join =
      rw
        (filter_of_IsGiven _ (
          All-IsGiven-append _ (c.name ∷ c.version ∷ []) folders
            (given.name_given, (given.version_given, tt))))
        (join-append "/" _ c.name (c.version ∷ []) (split-ne-nil b'.' c.group))

  build-located :
      build_from base file (c.group ∷ c.name ∷ c.version ∷ optional c.classifier)
      ≡ some (
          concat (
            base
            ∷ ensure_slash base
            ∷ file_join "/" (split b'.' c.group ++ c.name ∷ c.version ∷ [])
            ∷ classifier_folder c.classifier
            ∷ "/"
            ∷ file
            ∷ []))
  unfolding build_from
  build-located = elim (Bool-cases (str_eq c.group "")) [
    | inl empty ↦ absurd (given.group_given ((eq_iff _ _).0 empty))
    | inr other ↦ rw (other, directory-eq-join, join-classifier) (ap some (simp append_assoc))
  ]

  -- For the coordinate of an artifact without an extension, whose group has no empty folder,
  -- buildUrlFromBase gives the base with a slash after it, the same folders as the local
  -- directory of the artifact, then a folder named as its classifier if it has one, and the file.
  pub build_url-eq-directory :
      c.extension ≡ none
      → build_url_from_base base (print c) file
        ≡ some (
            concat (
              base
              ∷ ensure_slash base
              ∷ file_join "/" (split b'.' c.group ++ c.name ∷ c.version ∷ [])
              ∷ classifier_folder c.classifier
              ∷ "/"
              ∷ file
              ∷ []))
  unfolding build_url_from_base
  build_url-eq-directory plain =
      rw (plain, append-nil (cleaned c)) (rw (split-cleaned c given) (build-located))

ends_with-slash : (base : String) → ends_with (text_append base "/") b'/' ≡ true
unfolding ends_with
ends_with-slash text_nil = refl
ends_with-slash (char_cons d text_nil) = rw cons-append refl
ends_with-slash (char_cons d (char_cons e s)) =
    rw (cons-append, cons-append) (rw (cons-append e s "/") at (ends_with-slash (char_cons e s)))

-- If a base does not end with a slash, buildUrlFromBase gives the same for it as for the base
-- with a slash after it.
pub build_url-slash :
    (base name file : String)
    → ends_with base b'/' ≡ false
    → build_url_from_base base name file ≡ build_url_from_base (text_append base "/") name file
unfolding build_url_from_base
build_url-slash base name file h = go (split b':' name)
  where
    go :
        (parts : List String)
        → build_from base file parts ≡ build_from (text_append base "/") file parts
    go [] = refl
    go (g ∷ rest) = elim (Bool-cases (str_eq g "")) [
      | inl e ↦ rw e
      | inr e ↦ rw (e, h, ends_with-slash base) (ap some (simp (append_assoc, nil-append)))
    ]
