-- ===== src/Prelude/Text/Splitting.antt =====
-- `split` and `join` undo one another, and what the pieces of a split hold.
use Prim.Native.Nat.{ℕ, suc, ◌+◌}
use Prim.Native.Char.{Char, code}
use Prim.Native.String.{String, [], ◌∷◌, ◌++◌}
use mathlib.Core.Path.{◌≡◌, refl, ap, ◌∙◌}
use mathlib.Core.Logic.{◌≢◌, inl, inr}
use mathlib.Core.List.{List, [] as nil, ◌∷◌ as cons}
use mathlib.Core.Bool.{Bool, true, not, ◌&&◌}
use native.Mathlib.Omega.{arith}
use text.Mathlib.TextLemmas.{nil-append, cons-append}
use text.Mathlib.TextEquality.{Char-path}
use kaede.Prelude.Tests.{◌==◌, Bool-cases}
use kaede.Prelude.Lists.{All, length}
use kaede.Prelude.Text.{onto_head, split, join, Free, count_of}

pub split_of_Free : (c : ℕ) (s : String) → Free c s → split c s ≡ cons s nil
unfolding split
split_of_Free c [] h = refl
split_of_Free c (d ∷ s) h = ground (arith, split_of_Free c s h.1)

-- A part without the separator, then the separator: the part comes off.
pub split-append :
    (p : String) (d : Char) (s : String)
    → Free (code d) p
    → split (code d) (p ++ (d ∷ s)) ≡ cons p (split (code d) s)
unfolding split
split-append [] d s h = rw nil-append (ground arith)
split-append (e ∷ p) d s h = rw cons-append (ground (arith, split-append p d s h.1))

onto_head-Free :
    (c : ℕ) (d : Char) (ps : List String)
    → code d ≢ c
    → All (Free c) ps
    → All (Free c) (onto_head d ps)
onto_head-Free c d nil k h = ((k, tt), tt)
onto_head-Free c d (cons p ps) k h = ((k, h.0), h.1)

-- No piece holds the separator.
pub split-All-Free : (c : ℕ) (s : String) → All (Free c) (split c s)
unfolding split
split-All-Free c [] = (tt, tt)
split-All-Free c (d ∷ s) = elim (Bool-cases (code d == c)) [
  | inl e ↦ rw e (tt, split-All-Free c s)
  | inr e ↦ rw e (onto_head-Free c d (split c s) (ground arith) (split-All-Free c s))
]

length-onto_head : (d : Char) (ps : List String) → ps ≢ nil → length (onto_head d ps) ≡ length ps
length-onto_head d nil h = absurd (h refl)
length-onto_head d (cons p ps) h = refl

onto_head-ne-nil : (d : Char) (ps : List String) → onto_head d ps ≢ nil
onto_head-ne-nil d nil = cc
onto_head-ne-nil d (cons p ps) = cc

pub split-ne-nil : (c : ℕ) (s : String) → split c s ≢ nil
unfolding split
split-ne-nil c [] = cc
split-ne-nil c (d ∷ s) = ground (arith, onto_head-ne-nil d (split c s))

-- There is one piece more than separators.
pub length-split : (c : ℕ) (s : String) → length (split c s) ≡ suc (count_of c s)
unfolding split count_of
length-split c [] = refl
length-split c (d ∷ s) = elim (Bool-cases (code d == c)) [
  | inl e ↦ rw e (ap suc (length-split c s))
  | inr e ↦ rw e (length-onto_head d (split c s) (split-ne-nil c s) ∙ length-split c s)
]

join-onto_head :
    (sep : String) (d : Char) (ps : List String) → join sep (onto_head d ps) ≡ d ∷ join sep ps
unfolding join
join-onto_head sep d nil = refl
join-onto_head sep d (cons p nil) = refl
join-onto_head sep d (cons p (cons q ps)) = cons-append d p _

join-cons-nil :
    (sep : String) (ps : List String) → ps ≢ nil → join sep (cons "" ps) ≡ sep ++ join sep ps
unfolding join
join-cons-nil sep nil h = absurd (h refl)
join-cons-nil sep (cons p ps) h = nil-append _

-- Joining the pieces by the separator gives the text back.
pub join-split : (d : Char) (s : String) → join (d ∷ "") (split (code d) s) ≡ s
unfolding split
join-split d [] = unfold join in refl
join-split d (e ∷ s) = elim (Bool-cases (code e == code d)) [
  | inl h ↦ rw h (
      join-cons-nil (d ∷ "") (split (code d) s) (split-ne-nil (code d) s)
      ∙ cons-append d "" _
      ∙ cc (
        nil-append (join (d ∷ "") (split (code d) s)),
        join-split d s,
        Char-path e d (ground arith),
      ))
  | inr h ↦ rw h (join-onto_head (d ∷ "") e (split (code d) s) ∙ ap (λ t. e ∷ t) (join-split d s))
]

pub Free-append : (c : ℕ) (s t : String) → Free c s → Free c t → Free c (s ++ t)
Free-append c [] t hs ht = rw nil-append ht
Free-append c (d ∷ s) t hs ht = rw cons-append (hs.0, Free-append c s t hs.1 ht)

pub count_of-Free : (c : ℕ) (s : String) → Free c s → count_of c s ≡ 0
unfolding count_of
count_of-Free c [] h = refl
count_of-Free c (d ∷ s) h = ground (arith, count_of-Free c s h.1)

pub count_of-append : (c : ℕ) (s t : String) → count_of c (s ++ t) ≡ count_of c s + count_of c t
unfolding count_of
count_of-append c [] t = rw nil-append (omega arith)
count_of-append c (d ∷ s) t = rw cons-append (ground (arith, count_of-append c s t))

-- Splitting what was joined gives the parts back, if none of them holds the separator.
pub split-join :
    (d : Char) (p : String) (ps : List String)
    → All (Free (code d)) (cons p ps)
    → split (code d) (join (d ∷ "") (cons p ps)) ≡ cons p ps
unfolding join
split-join d p nil h = split_of_Free (code d) p h.0
split-join d p (cons q ps) h =
    rw (cons-append, nil-append)
      (split-append p d _ h.0 ∙ ap (λ t. cons p t) (split-join d q ps h.1))

-- A test for the absence of a code point.
unfoldable pub is_free : ℕ → String → Bool
is_free c [] = true
is_free c (d ∷ s) = not (code d == c) && is_free c s

pub is_free-Free : (c : ℕ) (s : String) → is_free c s ≡ true → Free c s
unfolding is_free
is_free-Free c [] h = tt
is_free-Free c (d ∷ s) h = ground (arith, is_free-Free c s)
