-- ===== src/Parsers/ArtifactPath/Coordinates.antt =====
-- Maven coordinates, how they are written, and that normalize-artifact-path.ts reads them back.
use Prim.Native.String.{◌∷◌ as char_cons, ◌++◌ as text_append}
use kaede.Prelude.{
  ℕ, String, Char, code, Option, none, some, List, [], ◌∷◌, ◌++◌, ◌≡◌, ◌≢◌, refl, ap, ◌∙◌, ◌↔◌,
  arith, eq_iff, default, get_elem?,
}
use text.Mathlib.TextLemmas.{append-nil}
use kaede.Prelude.Text.{split, concat, Free}
use kaede.Prelude.Text.Splitting.{split_of_Free, split-append, Free-append}
use kaede.Outcome.{Error, ok, throw}
use kaede.FileManager.{file_join}
use kaede.Parsers.ArtifactPath.{truthy, file_name, locate, normalize_artifact_path}

pub record Coordinate : Type 0 where
  pub group : String
  pub name : String
  pub version : String
  pub classifier : Option String
  pub extension : Option String

-- the parts hold no ":" and no "@"
abbrev pub IsPart : String → Type 0
IsPart s = Free b':' s × Free b'@' s

abbrev pub IsOptionalPart : Option String → Type 0
IsOptionalPart none = Unit
IsOptionalPart (some s) = IsPart s

pub record IsCoordinate (c : Coordinate) : Type 0 where
  pub group_part : IsPart c.group
  pub name_part : IsPart c.name
  pub version_part : IsPart c.version
  pub classifier_part : IsOptionalPart c.classifier
  pub extension_part : IsOptionalPart c.extension
  pub group_given : c.group ≢ ""
  pub name_given : c.name ≢ ""
  pub version_given : c.version ≢ ""

infixr 65 ◌+text◌
abbrev pub ◌+text◌ : String → String → String
s +text t = text_append s t

abbrev pub suffix : Char → Option String → String
suffix d none = ""
suffix d (some s) = char_cons d s

abbrev pub optional : Option String → List String
optional none = []
optional (some s) = s ∷ []

-- "group:name:version[:classifier]"
abbrev pub cleaned : Coordinate → String
cleaned c =
    c.group
    +text char_cons ":" (c.name +text char_cons ":" (c.version +text suffix ":" c.classifier))

-- the coordinate as the metadata writes it
abbrev pub print : Coordinate → String
print c = cleaned c +text suffix "@" c.extension

-- A part with an optional last part behind a separator.
split_last :
    (d : Char) (s : String) (last : Option String)
    → Free (code d) s
    → ((t : String) → last ≡ some t → Free (code d) t)
    → split (code d) (s +text suffix d last) ≡ s ∷ optional last
split_last d s none h k = rw append-nil (split_of_Free (code d) s h)
split_last d s (some t) h k =
    split-append s d t h ∙ ap (λ ps. s ∷ ps) (split_of_Free (code d) t (k t refl))

module _ (c : Coordinate) (ok_c : IsCoordinate c) where
  classifier-Free :
      (d : ℕ)
      → ((s : String) → IsPart s → Free d s)
      → (t : String) → c.classifier ≡ some t
      → Free d t
  classifier-Free d part t e = part t (rw e at ok_c.classifier_part)

  pub split-cleaned : split b':' (cleaned c) ≡ c.group ∷ c.name ∷ c.version ∷ optional c.classifier
  split-cleaned =
      split-append c.group ":" _ ok_c.group_part.0
      ∙ ap (λ ps. c.group ∷ ps)
          (split-append c.name ":" _ ok_c.name_part.0
            ∙ ap (λ ps. c.name ∷ ps)
                (split_last ":" c.version c.classifier ok_c.version_part.0
                  (classifier-Free b':' (λ s h. h.0))))

  suffix-Free : (o : Option String) → IsOptionalPart o → Free b'@' (suffix ":" o)
  suffix-Free none h = tt
  suffix-Free (some s) h = (omega arith, h.1)

  cleaned-Free : Free b'@' (cleaned c)
  cleaned-Free = Free-append b'@' c.group _ ok_c.group_part.1 (
    omega arith,
    Free-append b'@' c.name _ ok_c.name_part.1 (
      omega arith,
      Free-append b'@' c.version _ ok_c.version_part.1
          (suffix-Free c.classifier ok_c.classifier_part),
    ),
  )

  split-print : split b'@' (print c) ≡ cleaned c ∷ optional c.extension
  split-print =
      split_last "@" (cleaned c) c.extension cleaned-Free
        (λ t e. let h : IsOptionalPart (some t) = rw e at ok_c.extension_part in h.1)

truthy-some : (s : String) → s ≢ "" → truthy (some s) ≡ some s
truthy-some s h = ground (arith, eq_iff s "")

head-optional : (o : Option String) → get_elem? (optional o) 0 ≡ o
head-optional none = refl
head-optional (some s) = refl

-- a part of the text before the first "@", if it is there and not empty
abbrev pub part_of : String → ℕ → Option String
part_of artifact i =
    truthy (get_elem? (split b':' (default "" (get_elem? (split b'@' artifact) 0))) i)

-- A Maven coordinate whose parts hold neither a colon nor an at sign and whose group, name and
-- version are not empty, written as the metadata writes it, is read back by
-- normalizeArtifactPath: its group and name make the identity, its group, name and version the
-- directory, and its name, version, classifier and extension, or jar without one, the file.
pub normalize_artifact_path-print :
    (delimiter : String) (c : Coordinate)
    → IsCoordinate c
    → normalize_artifact_path delimiter (print c)
      ≡ ok (record {
        directory = file_join delimiter (split b'.' c.group ++ c.name ∷ c.version ∷ []);
        file = file_name c.name c.version (default "jar" c.extension) c.classifier;
        classifier = c.classifier;
        id = concat (c.group ∷ ":" ∷ c.name ∷ []);
      })
unfolding normalize_artifact_path
normalize_artifact_path-print delimiter c h = rw (split-print c h) (
    rw (split-cleaned c h) (
      rw
        (
          truthy-some c.group h.group_given,
          truthy-some c.name h.name_given,
          truthy-some c.version h.version_given,
          head-optional c.classifier,
          head-optional c.extension,
        )
        refl))

locate-throw_iff :
    (delimiter extension : String) (g n v c tg tn tv : Option String)
    → ((e : Error) × (locate delimiter extension g n v c tg tn tv ≡ throw e))
      ↔ ¬ ((a b d : String) × (tg ≡ some a) × (tn ≡ some b) × (tv ≡ some d))
unfolding locate
locate-throw_iff delimiter x g n v c (some a) (some b) (some d) =
    (λ t k. absurd (cc (t.1)), λ k. absurd (k (a, b, d, refl, refl, refl)))
locate-throw_iff delimiter x g n v c none tn tv = (λ t k. cc (k.3), λ k. (_, refl))
locate-throw_iff delimiter x g n v c (some a) none tv = (λ t k. cc (k.4), λ k. (_, refl))
locate-throw_iff delimiter x g n v c (some a) (some b) none = (λ t k. cc (k.5), λ k. (_, refl))

-- normalizeArtifactPath throws exactly if one of the first three parts between colons, of the
-- text before the first at sign, is absent or empty.
pub normalize_artifact_path-throw_iff :
    (delimiter artifact : String)
    → ((e : Error) × (normalize_artifact_path delimiter artifact ≡ throw e))
      ↔ ¬ (
          (g n v : String) × (part_of artifact 0 ≡ some g)
          × (part_of artifact 1 ≡ some n)
          × (part_of artifact 2 ≡ some v))
unfolding normalize_artifact_path
normalize_artifact_path-throw_iff delimiter artifact =
    locate-throw_iff delimiter _ _ _ _ _ (part_of artifact 0) (part_of artifact 1)
      (part_of artifact 2)
