-- ===== src/Arguments/Split/RoundTrip.antt =====
-- `splitArguments` undoes `joinArguments` on arguments that need no quotes.
use Prim.Native.String.{[] as nil, ◌∷◌ as cons, ◌++◌ as ◌⊕◌}
use text.Mathlib.TextLemmas.{nil-append, cons-append}
use text.Mathlib.TextLemmas
use kaede.Prelude.{
  Char, code, String, true, false, some, List, [], ◌∷◌, map, filter, ◌≡◌, ◌≢◌, refl, sym, ap, ◌∙◌,
  arith, eq_iff, Bool-cases, inl, inr, All,
}
use kaede.Prelude.Text.{join, Free, includes}
use kaede.Prelude.Text.Splitting.{split-join, Free-append}
use kaede.Arguments.Split.{
  quote, space, is_not_empty, split_arguments, join_arguments, quote_argument,
}
use kaede.Arguments.Split.Laws.{split_arguments-of_Free}
use text.Mathlib.Text.{starts_with}
use text.Mathlib.TextEquality.{starts_with_iff}
use text.Mathlib.TextBridge.{IsPrefix}

-- An argument without spaces and quotes, that is not empty.
abbrev pub IsPlain : String → Type 0
IsPlain argument = (argument ≢ "") × Free space argument × Free quote argument

starts_with-space-of_ne :
    (c : Char) (s : String) → code c ≢ space → starts_with (cons c s) " " ≡ false
starts_with-space-of_ne c s h = elim (Bool-cases (starts_with (cons c s) " ")) [
  | inl e ↦ absurd (go ((starts_with_iff (cons c s) " ").0 e))
  | inr e ↦ e
]
  where
    go : IsPrefix " " (cons c s) → ⊥
    go (r, e) = h (sym (ap code (TextLemmas.head-eq_of_cons-eq (sym (cons-append _ nil r) ∙ e))))

includes-of_Free : (s : String) → Free space s → includes s " " ≡ false
unfolding includes
includes-of_Free nil h = refl
includes-of_Free (cons c s) h = rw (starts_with-space-of_ne c s h.0) (includes-of_Free s h.1)

quote_argument-of_IsPlain :
    (argument : String) → IsPlain argument → quote_argument argument ≡ argument
unfolding quote_argument
quote_argument-of_IsPlain argument h = rw (includes-of_Free argument h.1) refl

map-of_IsPlain :
    (arguments : List String) → All IsPlain arguments → map quote_argument arguments ≡ arguments
map-of_IsPlain [] h = refl
map-of_IsPlain (p ∷ ps) h = rw (quote_argument-of_IsPlain p h.0, map-of_IsPlain ps h.1) refl

join-Free : (ps : List String) → All IsPlain ps → Free quote (join " " ps)
unfolding join
join-Free [] h = tt
join-Free (p ∷ []) h = h.0.2
join-Free (p ∷ q ∷ ps) h =
    Free-append quote p (" " ⊕ join " " (q ∷ ps)) h.0.2
      (Free-append quote " " (join " " (q ∷ ps)) (omega arith, tt) (join-Free (q ∷ ps) h.1))

Free-of_IsPlain : (ps : List String) → All IsPlain ps → All (Free space) ps
Free-of_IsPlain [] h = tt
Free-of_IsPlain (p ∷ ps) h = (h.0.1, Free-of_IsPlain ps h.1)

filter-of_IsPlain : (ps : List String) → All IsPlain ps → filter is_not_empty ps ≡ ps
filter-of_IsPlain [] h = refl
filter-of_IsPlain (p ∷ ps) h = rw (go h.0.0) (ap (λ t. p ∷ t) (filter-of_IsPlain ps h.1))
  where
    go : p ≢ "" → is_not_empty p ≡ true
    go n = ground (arith, eq_iff p "")

-- If no argument of a list is empty or holds a space or a quote, splitArguments gives the list
-- back from the text that joinArguments makes of it.
pub split_arguments-join_arguments :
    (arguments : List String)
    → All IsPlain arguments
    → split_arguments (some (join_arguments (some arguments))) ≡ arguments
unfolding join_arguments
split_arguments-join_arguments [] h = unfold split_arguments join in refl
split_arguments-join_arguments (p ∷ ps) h =
    ap (λ ts. split_arguments (some (join " " ts))) (map-of_IsPlain (p ∷ ps) h)
    ∙ split_arguments-of_Free (join " " (p ∷ ps)) (join-Free (p ∷ ps) h)
    ∙ ap (filter is_not_empty) (split-join " " p ps (Free-of_IsPlain (p ∷ ps) h))
    ∙ filter-of_IsPlain (p ∷ ps) h
