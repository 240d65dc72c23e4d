-- ===== src/Arguments/Replace/Template.antt =====
-- A command line argument as a template: what a pass of the replacement makes of it.
use Prim.Native.String.{[] as nil, ◌∷◌ as cons, ◌++◌ as ◌⊕◌}
use text.Mathlib.Text.{starts_with}
use text.Mathlib.TextEquality.{starts_with_iff}
use text.Mathlib.TextBridge.{IsPrefix}
use text.Mathlib.TextLemmas
use text.Mathlib.TextLemmas.{nil-append, cons-append}
use mathlib.Core.Bool.{true≢false}
use Prim.Native.Nat.{◌-◌}
use kaede.Prelude.{
  ℕ, ◌+◌, Char, code, String, false, none, some, List, [], ◌∷◌, default, ◌≡◌, ◌≢◌, refl, sym, ap,
  ◌∙◌, arith, str_eq, eq_iff, Bool-cases, Option-cases, inl, inr, All,
}
use kaede.Prelude.Text.{Free}
use kaede.Prelude.Text.Replacing.{size}
use kaede.Prelude.Text.Splitting.{Free-append}
use kaede.Prelude.Dictionary.{Dictionary, get}
use kaede.Arguments.Replace.{placeholder, match_at, replace_at, replace_placeholders}

pub data Piece : Type 0 where
  literal key : String → Piece

abbrev pub dollar : ℕ
dollar = 36

abbrev pub brace : ℕ
brace = 125

-- A text has no "$"; a key has neither "$" nor the closing brace.
abbrev pub IsPiece : Piece → Type 0
IsPiece (literal t) = Free dollar t
IsPiece (key k) = Free dollar k × Free brace k

abbrev pub print : List Piece → String
print [] = ""
print (literal t ∷ pieces) = t ⊕ print pieces
print (key k ∷ pieces) = placeholder k ⊕ print pieces

-- The known keys are replaced; an unknown placeholder stays.
abbrev pub fill : Dictionary String → List Piece → String
fill table [] = ""
fill table (literal t ∷ pieces) = t ⊕ fill table pieces
fill table (key k ∷ pieces) = default (placeholder k) (get k table) ⊕ fill table pieces

abbrev pub HasPlainKeys : Dictionary String → Type 0
HasPlainKeys [] = Unit
HasPlainKeys ((k, v) ∷ table) = Free brace k × HasPlainKeys table

-- Two placeholders at the start of one text are the same.
key_unique :
    (j k s t : String) → Free brace j → Free brace k → j ⊕ cons "}" s ≡ k ⊕ cons "}" t → j ≡ k
key_unique nil nil s t hj hk e = refl
key_unique nil (cons c k) s t hj hk e = absurd (
    hk.0 (
      sym (
        ap code
          (TextLemmas.head-eq_of_cons-eq (sym (nil-append (cons "}" s)) ∙ e ∙ cons-append c k _)))))
key_unique (cons c j) nil s t hj hk e = absurd (
    hj.0 (
      ap code
        (TextLemmas.head-eq_of_cons-eq (sym (cons-append c j _) ∙ e ∙ nil-append (cons "}" t)))))
key_unique (cons c j) (cons d k) s t hj hk e =
    let conses = sym (cons-append c j (cons "}" s)) ∙ e ∙ cons-append d k (cons "}" t) in
    cc (
      TextLemmas.head-eq_of_cons-eq conses,
      key_unique j k s t hj.1 hk.1 (TextLemmas.tail-eq_of_cons-eq conses),
    )

placeholder-append : (k s : String) → placeholder k ⊕ s ≡ cons "$" (cons "{" (k ⊕ cons "}" s))
placeholder-append k s =
    rw
      (
        TextLemmas.append_assoc, cons-append, cons-append, nil-append, TextLemmas.append_assoc,
        TextLemmas.append-nil,
      )
      (rw (cons-append, nil-append) refl)

size-append : (s t : String) → size (s ⊕ t) ≡ size s + size t
unfolding size
size-append nil t = rw nil-append (omega arith)
size-append (cons c s) t = rw cons-append (omega (arith, size-append s t))

size-placeholder : (k : String) → size (placeholder k) - 1 ≡ size k + 2
size-placeholder k =
    let whole = size-append "${" (k ⊕ ("}" ⊕ "")) in
    let tail = size-append k ("}" ⊕ "") in
    let brace_size = size-append "}" "" in unfold size in omega (arith, whole, tail, brace_size)

starts_with-placeholder :
    (j k s : String)
    → Free brace j
    → Free brace k
    → starts_with (placeholder k ⊕ s) (placeholder j) ≡ str_eq j k
starts_with-placeholder j k s hj hk =
    elim (Bool-cases (starts_with (placeholder k ⊕ s) (placeholder j))) [
      | inl e ↦
          e
          ∙ sym ((eq_iff j k).1 (same ((starts_with_iff (placeholder k ⊕ s) (placeholder j)).0 e)))
      | inr e ↦ e ∙ sym (differ e)
    ]
  where
    same : IsPrefix (placeholder j) (placeholder k ⊕ s) → j ≡ k
    same (u, e) = key_unique j k u s hj hk (
        TextLemmas.tail-eq_of_cons-eq (
          TextLemmas.tail-eq_of_cons-eq
            (sym (placeholder-append j u) ∙ e ∙ placeholder-append k s)))

    differ : starts_with (placeholder k ⊕ s) (placeholder j) ≡ false → str_eq j k ≡ false
    differ e = elim (Bool-cases (str_eq j k)) [
      | inl eq ↦ absurd (
          true≢false (
            sym (
              (starts_with_iff (placeholder k ⊕ s) (placeholder j)).1
                (s, ap (λ i. placeholder i ⊕ s) ((eq_iff j k).0 eq)))
            ∙ e))
      | inr ne ↦ ne
    ]

-- Where no "$" stands, nothing matches.
match_at-ne :
    (table : Dictionary String) (c : Char) (s : String)
    → code c ≢ dollar
    → match_at table (cons c s) ≡ none
unfolding match_at
match_at-ne [] c s h = refl
match_at-ne ((k, v) ∷ table) c s h = elim (Bool-cases (starts_with (cons c s) (placeholder k))) [
  | inl e ↦ absurd (go ((starts_with_iff (cons c s) (placeholder k)).0 e))
  | inr e ↦ rw e (match_at-ne table c s h)
]
  where
    go : IsPrefix (placeholder k) (cons c s) → ⊥
    go (u, e) = h (sym (ap code (TextLemmas.head-eq_of_cons-eq (sym (placeholder-append k u) ∙ e))))

match_at-placeholder :
    (table : Dictionary String) (k s : String)
    → HasPlainKeys table
    → Free brace k
    → match_at table (placeholder k ⊕ s)
      ≡ elim (get k table) [ none ↦ none | some v ↦ some (v, size k + 2) ]
unfolding match_at get
match_at-placeholder [] k s hs hk = refl
match_at-placeholder ((j, v) ∷ table) k s hs hk =
    rw (starts_with-placeholder j k s hs.0 hk) (elim (Bool-cases (str_eq j k)) [
      | inl e ↦ rw (e, size-placeholder j, (eq_iff j k).0 e) refl
      | inr e ↦ rw e (match_at-placeholder table k s hs.1 hk)
    ])

-- Passing over the rest of a match.
replace_at-skip :
    (table : Dictionary String) (t s : String)
    → replace_at table (size t) (t ⊕ s) ≡ replace_at table 0 s
unfolding replace_at size
replace_at-skip table nil s = rw nil-append refl
replace_at-skip table (cons c t) s = rw cons-append (replace_at-skip table t s)

replace_at-found :
    (table : Dictionary String) (c : Char) (s : String) (found : String × ℕ)
    → match_at table (cons c s) ≡ some found
    → replace_at table 0 (cons c s) ≡ found.0 ⊕ replace_at table found.1 s
unfolding replace_at
replace_at-found table c s found e = rw (e, replace_at) refl

replace_at-missing :
    (table : Dictionary String) (c : Char) (s : String)
    → match_at table (cons c s) ≡ none
    → replace_at table 0 (cons c s) ≡ cons c (replace_at table 0 s)
unfolding replace_at
replace_at-missing table c s e = rw (e, replace_at) refl

-- A text without "$" stays.
replace_at-literal :
    (table : Dictionary String) (t s : String)
    → Free dollar t
    → replace_at table 0 (t ⊕ s) ≡ t ⊕ replace_at table 0 s
unfolding replace_at
replace_at-literal table nil s h = rw (nil-append, nil-append) refl
replace_at-literal table (cons c t) s h =
    ap (replace_at table 0) (cons-append c t s)
    ∙ replace_at-missing table c (t ⊕ s) (match_at-ne table c (t ⊕ s) h.0)
    ∙ ap (λ u. cons c u) (replace_at-literal table t s h.1)
    ∙ sym (cons-append c t (replace_at table 0 s))

braced : String → String
braced k = cons "{" (k ⊕ "}")

braced-append : (k s : String) → cons "{" (k ⊕ cons "}" s) ≡ braced k ⊕ s
unfolding braced
braced-append k s = rw (cons-append, TextLemmas.append_assoc, cons-append, nil-append) refl

size-braced : (k : String) → size (braced k) ≡ size k + 2
unfolding braced
size-braced k = let whole = size-append k "}" in unfold size in omega (arith, whole)

replace_at-known :
    (table : Dictionary String) (k v s : String)
    → HasPlainKeys table
    → Free brace k
    → get k table ≡ some v
    → replace_at table 0 (placeholder k ⊕ s) ≡ v ⊕ replace_at table 0 s
replace_at-known table k v s plain hk e =
    ap (replace_at table 0) (placeholder-append k s)
    ∙ replace_at-found table "$" (cons "{" (k ⊕ cons "}" s)) (v, size k + 2) found
    ∙ ap (λ n. v ⊕ replace_at table n (cons "{" (k ⊕ cons "}" s))) (sym (size-braced k))
    ∙ ap (λ t. v ⊕ replace_at table (size (braced k)) t) (braced-append k s)
    ∙ ap (λ t. v ⊕ t) (replace_at-skip table (braced k) s)
  where
    found : match_at table (cons "$" (cons "{" (k ⊕ cons "}" s))) ≡ some (v, size k + 2)
    found = rw (sym (placeholder-append k s), match_at-placeholder table k s plain hk, e) refl

replace_at-unknown :
    (table : Dictionary String) (k s : String)
    → HasPlainKeys table
    → Free dollar k × Free brace k
    → get k table ≡ none
    → replace_at table 0 (placeholder k ⊕ s) ≡ placeholder k ⊕ replace_at table 0 s
replace_at-unknown table k s plain (hd, hk) e =
    ap (replace_at table 0) (placeholder-append k s)
    ∙ replace_at-missing table "$" (cons "{" (k ⊕ cons "}" s)) missing
    ∙ ap (λ t. cons "$" (replace_at table 0 t)) (braced-append k s)
    ∙ ap (λ t. cons "$" t) (replace_at-literal table (braced k) s free)
    ∙ ap (λ t. cons "$" t) (sym (braced-append k (replace_at table 0 s)))
    ∙ sym (placeholder-append k (replace_at table 0 s))
  where
    missing : match_at table (cons "$" (cons "{" (k ⊕ cons "}" s))) ≡ none
    missing = rw (sym (placeholder-append k s), match_at-placeholder table k s plain hk, e) refl

    free : Free dollar (braced k)
    free = unfold braced in (omega arith, Free-append dollar k "}" hd (omega arith, tt))

-- If the keys of a table hold no closing brace, then one pass of the replacement over a template
-- whose texts hold no dollar sign and whose keys hold neither a dollar sign nor a closing brace
-- gives the template with each known key replaced by its first value in the table, which is not
-- read again, and each unknown placeholder as it was.
pub replace-print :
    (table : Dictionary String) (pieces : List Piece)
    → HasPlainKeys table
    → All IsPiece pieces
    → replace_placeholders table (print pieces) ≡ fill table pieces
replace-print table [] plain h = unfold replace_at in refl
replace-print table (literal t ∷ pieces) plain h =
    replace_at-literal table t (print pieces) h.0
    ∙ ap (λ u. t ⊕ u) (replace-print table pieces plain h.1)
replace-print table (key k ∷ pieces) plain h = elim (Option-cases (get k table)) [
  | inl e ↦
      replace_at-unknown table k (print pieces) plain h.0 e
      ∙ rw e (ap (λ u. placeholder k ⊕ u) (replace-print table pieces plain h.1))
  | inr (v, e) ↦
      replace_at-known table k v (print pieces) plain h.0.1 e
      ∙ rw e (ap (λ u. v ⊕ u) (replace-print table pieces plain h.1))
]
