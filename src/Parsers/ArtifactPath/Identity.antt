-- ===== src/Parsers/ArtifactPath/Identity.antt =====
-- The identity of a normalized path, counted by its ":".
use mathlib.Core.Path.{subst}
use Prim.Native.String.{[] as text_nil, ◌∷◌ as char_cons}
use kaede.Prelude.{
  ℕ, zero, suc, ◌≤◌, String, Char, code, Option, none, some, List, [], ◌∷◌, ◌≡◌, ◌≢◌, refl, arith,
  default, get_elem?, inl, inr, Bool-cases, All, length, ◌==◌,
}
use kaede.Prelude.Text.{split, concat, Free, count_of, onto_head}
use kaede.Prelude.Text.Splitting.{
  split-All-Free, length-split, count_of-append, count_of-Free, split-ne-nil,
}
use kaede.Outcome.{ok}
use kaede.Parsers.ArtifactPath.{NormalizedPath, truthy, locate, normalize_artifact_path}
use kaede.Parsers.ArtifactPath.Coordinates.{part_of}

head-onto_head :
    (c : ℕ) (d : Char) (ps : List String)
    → ps ≢ []
    → count_of c (default "" (get_elem? (onto_head d ps) 0))
      ≡ count_of c (char_cons d (default "" (get_elem? ps 0)))
head-onto_head c d [] h = absurd (h refl)
head-onto_head c d (p ∷ ps) h = refl

-- The first piece of a split holds no more of a character than the text.
count_of-head :
    (c d : ℕ) (s : String) → count_of c (default "" (get_elem? (split d s) 0)) ≤ count_of c s
unfolding split count_of
count_of-head c d text_nil = omega arith
count_of-head c d (char_cons e s) = elim (Bool-cases (code e == d)) [
  | inl here ↦ rw here (omega arith)
  | inr other ↦
      rw other (
        rw (head-onto_head c e (split d s) (split-ne-nil d s))
          (ground (arith, count_of-head c d s)))
]

truthy-eq-some : (o : Option String) (s : String) → truthy o ≡ some s → o ≡ some s
truthy-eq-some none s h = cc
truthy-eq-some (some t) s h = ground arith

get_elem?-Free :
    (c : ℕ) (ps : List String) (i : ℕ) (s : String)
    → All (Free c) ps
    → get_elem? ps i ≡ some s
    → Free c s
get_elem?-Free c [] i s h e = absurd (cc)
get_elem?-Free c (p ∷ ps) zero s h e = subst (Free c) (cc) h.0
get_elem?-Free c (p ∷ ps) (suc i) s h e = get_elem?-Free c ps i s h.1 e

get_elem?-length : (ps : List String) (s : String) → get_elem? ps 2 ≡ some s → 3 ≤ length ps
get_elem?-length (p ∷ q ∷ r ∷ ps) s h = omega arith
get_elem?-length _ s h = absurd (cc)

locate-ok :
    (delimiter x : String) (g n v c tg tn tv : Option String) (place : NormalizedPath)
    → locate delimiter x g n v c tg tn tv ≡ ok place
    → (a b d : String) × (tg ≡ some a)
      × (tn ≡ some b)
      × (tv ≡ some d)
      × (place.id ≡ concat (a ∷ ":" ∷ b ∷ []))
unfolding locate
locate-ok delimiter x g n v c (some a) (some b) (some d) place h =
    (a, b, d, refl, refl, refl, ground arith)
locate-ok delimiter x g n v c none tn tv place h = absurd (cc)
locate-ok delimiter x g n v c (some a) none tv place h = absurd (cc)
locate-ok delimiter x g n v c (some a) (some b) none place h = absurd (cc)

count_of-pair :
    (a b : String) → Free b':' a → Free b':' b → count_of b':' (concat (a ∷ ":" ∷ b ∷ [])) ≡ 1
count_of-pair a b fa fb = rw count_of-append (
    rw (count_of-append b':' ":" _) (
      rw (count_of-append b':' b "")
        (unfold count_of in omega (arith, count_of-Free b':' a fa, count_of-Free b':' b fb))))

-- The identity is the group and the name, and each holds no ":".
module _ (delimiter artifact : String) (place : NormalizedPath)
    (placed : normalize_artifact_path delimiter artifact ≡ ok place) where
  pub count_of-id : count_of b':' place.id ≡ 1
  unfolding normalize_artifact_path
  count_of-id =
      let (a, b, d, ea, eb, ed, e) =
        locate-ok delimiter _ _ _ _ _ (part_of artifact 0) (part_of artifact 1) (part_of artifact 2)
          place placed in
      let fa = get_elem?-Free b':' _ 0 a (split-All-Free b':' _) (truthy-eq-some _ a ea) in
      let fb = get_elem?-Free b':' _ 1 b (split-All-Free b':' _) (truthy-eq-some _ b eb) in
      rw e (count_of-pair a b fa fb)

  -- The name of a library has at least two ":".
  pub count_of-artifact : 2 ≤ count_of b':' artifact
  unfolding normalize_artifact_path
  count_of-artifact =
      let (a, b, d, ea, eb, ed, e) =
        locate-ok delimiter _ _ _ _ _ (part_of artifact 0) (part_of artifact 1) (part_of artifact 2)
          place placed in
      let cleaned = default "" (get_elem? (split b'@' artifact) 0) in
      omega (
        arith,
        get_elem?-length (split b':' cleaned) d (truthy-eq-some _ d ed),
        length-split b':' cleaned,
        count_of-head b':' b'@' artifact,
      )
