-- ===== src/Arguments/Split/Laws.antt =====
-- What `splitArguments` returns for every input, in terms of the plain `split` of a text.
use Prim.Native.String.{[] as nil, ◌∷◌ as cons, ◌++◌ as ◌⊕◌}
use mathlib.Core.List.{append_assoc, append-nil}
use text.Mathlib.TextLemmas
use text.Mathlib.TextLemmas.{nil-append, cons-append}
use kaede.Prelude.{
  init, init-append, ℕ, Char, code, String, true, false, some, inl, inr, List, [], ◌∷◌, ◌++◌,
  filter, if◌then◌else◌, ◌==◌, ◌≡◌, ◌≢◌, refl, sym, ap, ◌∙◌, arith, str_eq, eq_iff, Bool-cases,
}
use kaede.Prelude.Text.{split, onto_head, Free}
use kaede.Prelude.Text.Splitting.{split-ne-nil}
use kaede.Arguments.Split.{
  Splitting, quote, space, push_character, step, run, is_not_empty, begin, finish, split_arguments,
}

-- The last part.
abbrev pub last : List String → String
last [] = ""
last (p ∷ []) = p
last (p ∷ q ∷ ps) = last (q ∷ ps)

last-append : (ps : List String) (p : String) → last (ps ++ p ∷ []) ≡ p
last-append [] p = refl
last-append (q ∷ []) p = refl
last-append (q ∷ r ∷ ps) p = last-append (r ∷ ps) p

push-append : (t : String) (c : Char) (s : String) → push_character t c ⊕ s ≡ t ⊕ cons c s
push-append t c s =
    TextLemmas.append_assoc t (cons c nil ⊕ "") s
    ∙ ap (λ u. t ⊕ u) (rw (TextLemmas.append-nil, cons-append, nil-append) refl)

-- The finished parts and the one still being read, for a separator.
cut : ℕ → String → String → List String × String
cut c piece nil = ([], piece)
cut c piece (cons d s) =
    let fresh = cut c "" s in
    let longer = cut c (push_character piece d) s in
    if code d == c then (piece ∷ fresh.0, fresh.1) else longer

abbrev onto : String → List String → List String
onto piece [] = piece ∷ []
onto piece (p ∷ ps) = (piece ⊕ p) ∷ ps

onto_nil : (ps : List String) → ps ≢ [] → onto "" ps ≡ ps
onto_nil [] h = absurd (h refl)
onto_nil (p ∷ ps) h = ap (λ q. q ∷ ps) (nil-append p)

onto-onto_head :
    (piece : String) (d : Char) (ps : List String)
    → ps ≢ []
    → onto piece (onto_head d ps) ≡ onto (push_character piece d) ps
onto-onto_head piece d [] h = absurd (h refl)
onto-onto_head piece d (p ∷ ps) h = ap (λ q. q ∷ ps) (sym (push-append piece d p))

cut-split :
    (c : ℕ) (piece s : String)
    → (cut c piece s).0 ++ (cut c piece s).1 ∷ [] ≡ onto piece (split c s)
unfolding cut split
cut-split c piece nil = ap (λ q. q ∷ []) (sym (TextLemmas.append-nil piece))
cut-split c piece (cons d s) = elim (Bool-cases (code d == c)) [
  | inl e ↦ rw e (
      cut-cons_eq piece (cut-split c "" s ∙ onto_nil (split c s) (split-ne-nil c s))
      ∙ ap (λ q. q ∷ split c s) (sym (TextLemmas.append-nil piece)))
  | inr e ↦ rw e (
      cut-split c (push_character piece d) s
      ∙ sym (onto-onto_head piece d (split c s) (split-ne-nil c s)))
]
  where
    cut-cons_eq : {ps qs : List String} (p : String) → ps ≡ qs → p ∷ ps ≡ p ∷ qs
    cut-cons_eq p = ap (λ t. p ∷ t)

abbrev outside : List String → String → String → Splitting
outside ps piece q = record { parts = ps; simple = piece; quoted = q; in_quotes = false }

abbrev inside : List String → String → String → Splitting
inside ps piece q = record { parts = ps; simple = piece; quoted = q; in_quotes = true }

-- The loop outside quotes, on a text without quotes.
run-outside :
    (ps : List String) (piece q s : String)
    → Free quote s
    → run (outside ps piece q) s ≡ outside (ps ++ (cut space piece s).0) (cut space piece s).1 q
unfolding run step cut
run-outside ps piece q nil h = ap (λ xs. outside xs piece q) (sym (append-nil ps))
run-outside ps piece q (cons c s) h =
    let no_quote : (code c == quote) ≡ false = ground (arith, h.0) in
    elim (Bool-cases (code c == space)) [
      | inl e ↦
          rw (no_quote, e)
            (run-outside (ps ++ piece ∷ []) "" q s h.1
              ∙ ap (λ xs. outside xs (cut space "" s).1 q) (append_assoc ps (piece ∷ []) _))
      | inr e ↦ rw (no_quote, e) (run-outside ps (push_character piece c) q s h.1)
    ]

-- The loop inside quotes.
run-inside :
    (ps : List String) (piece q s : String)
    → run (inside ps piece q) s ≡ inside (ps ++ (cut quote q s).0) piece (cut quote q s).1
unfolding run step cut
run-inside ps piece q nil = ap (λ xs. inside xs piece q) (sym (append-nil ps))
run-inside ps piece q (cons c s) = elim (Bool-cases (code c == quote)) [
  | inl e ↦ rw e (
      run-inside (ps ++ q ∷ []) piece "" s
      ∙ ap (λ xs. inside xs piece (cut quote "" s).1) (append_assoc ps (q ∷ []) _))
  | inr e ↦ rw e (run-inside ps piece (push_character q c) s)
]

run-append : (st : Splitting) (s t : String) → run st (s ⊕ t) ≡ run (run st s) t
unfolding run
run-append st nil t = rw nil-append refl
run-append st (cons c s) t = rw cons-append (run-append (step st c) s t)

cut-init : (c : ℕ) (s : String) → (cut c "" s).0 ≡ init (split c s)
cut-init c s =
    sym (init-append (cut c "" s).0 (cut c "" s).1)
    ∙ ap init (cut-split c "" s ∙ onto_nil (split c s) (split-ne-nil c s))

cut-last : (c : ℕ) (s : String) → (cut c "" s).1 ≡ last (split c s)
cut-last c s =
    sym (last-append (cut c "" s).0 (cut c "" s).1)
    ∙ ap last (cut-split c "" s ∙ onto_nil (split c s) (split-ne-nil c s))

init-last : (ps : List String) → ps ≢ [] → init ps ++ last ps ∷ [] ≡ ps
init-last [] h = absurd (h refl)
init-last (p ∷ []) h = refl
init-last (p ∷ q ∷ ps) h = ap (λ t. p ∷ t) (init-last (q ∷ ps) (cc))

-- Whether the last part is pushed when it is empty makes no difference.
filter-finish :
    (ps : List String) (p : String) → finish (outside ps p "") ≡ filter is_not_empty (ps ++ p ∷ [])
filter-finish ps p = elim (Bool-cases (is_not_empty p)) [
  | inl e ↦ rw e refl
  | inr e ↦ rw e (go ps e)
]
  where
    go :
        (ps : List String)
        → is_not_empty p ≡ false
        → filter is_not_empty ps ≡ filter is_not_empty (ps ++ p ∷ [])
    go [] e = rw e refl
    go (q ∷ ps) e = rw (go ps e) refl

-- The guard for the empty text changes nothing.
no_guard : (s : String) → split_arguments (some s) ≡ finish (run begin s)
unfolding split_arguments
no_guard s = elim (Bool-cases (str_eq s "")) [
  | inl e ↦ rw (e, (eq_iff s "").0 e) (unfold run in refl)
  | inr e ↦ rw e refl
]

-- For an input without quotes, splitArguments returns the words between the spaces without the
-- empty ones.
pub split_arguments-of_Free :
    (s : String) → Free quote s → split_arguments (some s) ≡ filter is_not_empty (split space s)
split_arguments-of_Free s h =
    no_guard s
    ∙ ap finish (run-outside [] "" "" s h)
    ∙ filter-finish (cut space "" s).0 (cut space "" s).1
    ∙ ap (filter is_not_empty)
        (cut-split space "" s ∙ onto_nil (split space s) (split-ne-nil space s))

opening :
    (ps : List String) (p t : String) → run (outside ps p "") ("\"" ⊕ t) ≡ run (inside ps p "") t
unfolding run step
opening ps p t = rw (cons-append, nil-append) refl

-- For an input with a quote, splitArguments returns, without the empty ones, the words before the
-- first quote but the last, then the pieces between all the quotes after it but the last piece,
-- then the last word before the first quote. So no word after the first quote is split at a
-- space, and the text after the last quote is lost.
pub split_arguments-quoted :
    (s t : String)
    → Free quote s
    → split_arguments (some (s ⊕ ("\"" ⊕ t)))
      ≡ filter is_not_empty
          (init (split space s) ++ init (split quote t) ++ last (split space s) ∷ [])
split_arguments-quoted s t h =
    no_guard (s ⊕ ("\"" ⊕ t))
    ∙ ap finish (
        run-append begin s ("\"" ⊕ t)
        ∙ ap (λ st. run st ("\"" ⊕ t)) (run-outside [] "" "" s h)
        ∙ opening (cut space "" s).0 (cut space "" s).1 t
        ∙ run-inside (cut space "" s).0 (cut space "" s).1 "" t)
    ∙ filter-finish ((cut space "" s).0 ++ (cut quote "" t).0) (cut space "" s).1
    ∙ rw (cut-init space s, cut-init quote t, cut-last space s) refl
