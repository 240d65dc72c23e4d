-- ===== src/Permissions/Handle/Parts.antt =====
-- How handle-permission.ts takes a permission apart.
use Prim.Native.String.{[] as nil, ◌∷◌ as cons, ◌++◌ as ◌⊕◌}
use text.Mathlib.TextLemmas
use text.Mathlib.TextLemmas.{nil-append, cons-append}
use kaede.Prelude.{
  ℕ, code, String, false, some, [], ◌∷◌, ◌≡◌, ◌≢◌, refl, sym, ap, ◌∙◌, arith, str_eq, eq_iff,
  Bool-cases, inl, inr, get_elem?, ◌==◌, ◌&&◌,
}
use kaede.Prelude.Text.{concat, Free, onto_head}
use kaede.Prelude.Text.Splitting.{is_free, is_free-Free}
use kaede.Parsers.ArtifactPath.{truthy}
use kaede.Permissions.Handle.{split_scopes, internet_permission, by_parts, handle_permission}

abbrev pub colon : ℕ
colon = 58

-- No two colons stand beside one another.
abbrev pub HasNoPair : String → Type 0
HasNoPair nil = Unit
HasNoPair (cons c nil) = Unit
HasNoPair (cons c (cons d s)) =
    ((code c == colon) && (code d == colon) ≡ false) × HasNoPair (cons d s)

split_scopes-of_HasNoPair : (s : String) → HasNoPair s → split_scopes s ≡ s ∷ []
unfolding split_scopes
split_scopes-of_HasNoPair nil h = refl
split_scopes-of_HasNoPair (cons c nil) h = refl
split_scopes-of_HasNoPair (cons c (cons d s)) h =
    rw h.0 (ap (onto_head c) (split_scopes-of_HasNoPair (cons d s) h.1))

-- A part without colons comes off.
split_scopes-append :
    (s t : String) → Free colon s → split_scopes (s ⊕ cons ":" (cons ":" t)) ≡ s ∷ split_scopes t
unfolding split_scopes
split_scopes-append nil t h = rw nil-append refl
split_scopes-append (cons c nil) t h = rw (cons-append, nil-append) (ground (arith, h.0))
split_scopes-append (cons c (cons d s)) t h =
    ap split_scopes (cons-append c (cons d s) _ ∙ ap (λ u. cons c u) (cons-append d s _))
    ∙ rw (no_colon) (
        ap (onto_head c)
          (ap split_scopes (sym (cons-append d s _)) ∙ split_scopes-append (cons d s) t h.1))
  where
    no_colon : (code c == colon) ≡ false
    no_colon = ground (arith, h.0)

truthy-of_ne : (s : String) → s ≢ "" → truthy (some s) ≡ some s
truthy-of_ne s h = elim (Bool-cases (str_eq s "")) [
  | inl e ↦ absurd (h ((eq_iff s "").0 e))
  | inr e ↦ rw e refl
]

split_scopes-internet :
    (scope argument : String)
    → Free colon scope
    → HasNoPair argument
    → split_scopes (concat ("internet" ∷ "::" ∷ scope ∷ "::" ∷ argument ∷ []))
      ≡ "internet" ∷ scope ∷ argument ∷ []
split_scopes-internet scope argument hs ha =
    ap (λ t. split_scopes ("internet" ⊕ t)) (pair_append _)
    ∙ split_scopes-append "internet" _ (is_free-Free colon "internet" (unfold is_free in refl))
    ∙ ap (λ ps. "internet" ∷ ps)
        (ap (λ t. split_scopes (scope ⊕ t)) (pair_append _)
          ∙ split_scopes-append scope _ hs
          ∙ ap (λ ps. scope ∷ ps)
              (ap split_scopes (TextLemmas.append-nil argument)
                ∙ split_scopes-of_HasNoPair argument ha))
  where
    pair_append : (t : String) → "::" ⊕ t ≡ cons ":" (cons ":" t)
    pair_append t = rw (cons-append, cons-append, nil-append) refl

-- For a scope without colons and an argument without two colons beside one another, neither of
-- them empty, handlePermission makes of internet::scope::argument what the internet permission
-- makes of the scope and the whole argument.
pub handle_permission-internet :
    (scope argument : String)
    → Free colon scope
    → HasNoPair argument
    → scope ≢ ""
    → argument ≢ ""
    → handle_permission (concat ("internet" ∷ "::" ∷ scope ∷ "::" ∷ argument ∷ []))
      ≡ internet_permission scope (some argument)
unfolding handle_permission
handle_permission-internet scope argument hs ha ns na =
    ap
      (λ parts.
        by_parts (truthy (get_elem? parts 0)) (truthy (get_elem? parts 1)) (get_elem? parts 2))
      (split_scopes-internet scope argument hs ha)
    ∙ ap (λ o. by_parts (some "internet") o (some argument)) (truthy-of_ne scope ns)
    ∙ ap (internet_permission scope) (truthy-of_ne argument na)
