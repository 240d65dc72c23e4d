-- ===== src/Prelude/Text/Cutting.antt =====
-- A text on the two sides of the first, and of the last, place of a character: `s.slice(0, i)` and
-- `s.slice(i + 1)` for `i = s.indexOf(c)` and for `i = s.lastIndexOf(c)`; `none` where it is -1.
use Prim.Native.Char.{Char, code}
use Prim.Native.String.{[] as empty_text, ◌∷◌ as cons_char, ◌++◌ as ◌⊕◌}
use mathlib.Core.Path.{subst}
use text.Mathlib.TextLemmas.{nil-append, cons-append}
use kaede.Prelude.Tests.{◌==◌, if◌then◌else◌}
use kaede.Prelude.{
  String, ℕ, Bool, true, false, Option, none, some, ◌≡◌, refl, sym, ap, ◌∙◌, ◌≢◌, arith,
}
use kaede.Prelude.Text.{Free}

-- the pieces, with a character more in the first
abbrev pub longer : Char → Option (String × String) → Option (String × String)
longer d none = none
longer d (some (before, after)) = some (cons_char d before, after)

-- the pieces that the rest has, or those at this place
abbrev pub or_here : Bool → String → Option (String × String) → Option (String × String)
or_here here s (some pieces) = some pieces
or_here true s none = some ("", s)
or_here false s none = none

unfoldable pub cut_first : ℕ → String → Option (String × String)
cut_first c empty_text = none
cut_first c (cons_char d s) =
    let rest = cut_first c s in if code d == c then some ("", s) else longer d rest

unfoldable pub cut_last : ℕ → String → Option (String × String)
cut_last c empty_text = none
cut_last c (cons_char d s) = or_here (code d == c) s (longer d (cut_last c s))

pub cut_first-append :
    (p : String) (d : Char) (s : String)
    → Free (code d) p
    → cut_first (code d) (p ⊕ cons_char d s) ≡ some (p, s)
unfolding cut_first
cut_first-append empty_text d s h = rw nil-append (ground arith)
cut_first-append (cons_char e p) d s h = rw cons-append (ground (arith, cut_first-append p d s h.1))

pub cut_last-of_Free : (c : ℕ) (s : String) → Free c s → cut_last c s ≡ none
unfolding cut_last
cut_last-of_Free c empty_text h = refl
cut_last-of_Free c (cons_char d s) h = ground (arith, cut_last-of_Free c s h.1)

pub cut_last-append :
    (p : String) (d : Char) (s : String)
    → Free (code d) s
    → cut_last (code d) (p ⊕ cons_char d s) ≡ some (p, s)
unfolding cut_last
cut_last-append empty_text d s h = rw nil-append (ground (arith, cut_last-of_Free (code d) s h))
cut_last-append (cons_char e p) d s h = rw cons-append (rw (cut_last-append p d s h) refl)

-- The text is two pieces with a character of the given code point between them.
abbrev pub IsCut : ℕ → String → String → String → Type 0
IsCut c s before after = (d : Char) × (code d ≡ c) × (s ≡ before ⊕ cons_char d after)

Free-of_cut_last : (c : ℕ) (s : String) → cut_last c s ≡ none → Free c s
unfolding cut_last
Free-of_cut_last c empty_text h = tt
Free-of_cut_last c (cons_char d s) h =
    go (code d == c) refl (cut_last c s) refl h (Free-of_cut_last c s)
  where
    go :
        (b : Bool)
        → (code d == c) ≡ b
        → (o : Option (String × String)) → cut_last c s ≡ o
        → or_here b s (longer d o) ≡ none
        → (cut_last c s ≡ none → Free c s)
        → (code d ≢ c) × Free c s
    go b e (some (x, y)) run k later = absurd (cc)
    go true e none run k later = absurd (cc)
    go false e none run k later = (ground arith, later run)

pair_inj :
    (a b x y : String)
    → ◌≡◌ {A = Option (String × String)} (some (a, x)) (some (b, y))
    → (a ≡ b) × (x ≡ y)
pair_inj a b x y h = (cc, cc)

pub cut_first-inv :
    (c : ℕ) (s before after : String)
    → cut_first c s ≡ some (before, after)
    → IsCut c s before after × Free c before
unfolding cut_first
cut_first-inv c empty_text before after h = absurd (cc)
cut_first-inv c (cons_char d s) before after h =
    go (code d == c) refl (cut_first c s) h (cut_first-inv c s)
  where
    go :
        (b : Bool)
        → (code d == c) ≡ b
        → (o : Option (String × String))
        → (if b then some ("", s) else longer d o) ≡ some (before, after)
        → ((x y : String) → o ≡ some (x, y) → IsCut c s x y × Free c x)
        → IsCut c (cons_char d s) before after × Free c before
    go true e o k later =
        let p = pair_inj "" before s after k in
        subst (λ x. IsCut c (cons_char d s) x after × Free c x) p.0
          (subst (λ y. IsCut c (cons_char d s) "" y × Unit) p.1
            ((d, ground arith, sym (nil-append (cons_char d s))), tt))
    go false e none k later = absurd (cc)
    go false e (some (x, y)) k later =
        let p = pair_inj (cons_char d x) before y after k in
        let ((f, is_c, cut), free) = later x y refl in
        subst (λ z. IsCut c (cons_char d s) z after × Free c z) p.0
          (subst (λ z. IsCut c (cons_char d s) (cons_char d x) z × Free c (cons_char d x)) p.1
            (
              (f, is_c, ap (cons_char d) cut ∙ sym (cons-append d x (cons_char f y))),
              (ground arith, free),
            ))

pub cut_last-inv :
    (c : ℕ) (s before after : String)
    → cut_last c s ≡ some (before, after)
    → IsCut c s before after × Free c after
unfolding cut_last
cut_last-inv c empty_text before after h = absurd (cc)
cut_last-inv c (cons_char d s) before after h =
    go (code d == c) refl (cut_last c s) refl h (cut_last-inv c s)
  where
    go :
        (b : Bool)
        → (code d == c) ≡ b
        → (o : Option (String × String)) → cut_last c s ≡ o
        → or_here b s (longer d o) ≡ some (before, after)
        → ((x y : String) → cut_last c s ≡ some (x, y) → IsCut c s x y × Free c y)
        → IsCut c (cons_char d s) before after × Free c after
    go b e (some (x, y)) run k later =
        let p = pair_inj (cons_char d x) before y after k in
        let ((f, is_c, cut), free) = later x y run in
        subst (λ z. IsCut c (cons_char d s) z after × Free c after) p.0
          (subst (λ z. IsCut c (cons_char d s) (cons_char d x) z × Free c z) p.1
            ((f, is_c, ap (cons_char d) cut ∙ sym (cons-append d x (cons_char f y))), free))
    go true e none run k later =
        let p = pair_inj "" before s after k in
        subst (λ z. IsCut c (cons_char d s) z after × Free c after) p.0
          (subst (λ z. IsCut c (cons_char d s) "" z × Free c z) p.1
            ((d, ground arith, sym (nil-append (cons_char d s))), Free-of_cut_last c s run))
    go false e none run k later = absurd (cc)
