-- ===== src/Arguments/Replace/Passes.antt =====
-- The two passes of replace-launch-arguments.ts, the second with the data of the account, make one
-- replacement with both tables.
use Prim.Native.String.{◌++◌ as ◌⊕◌}
use mathlib.Core.Path.{subst}
use kaede.Prelude.{
  String, Bool, true, ◌&&◌, Option, none, some, List, [], ◌∷◌, ◌++◌, map, default, ◌≡◌, refl, sym,
  ap, ◌∙◌, arith, str_eq, Bool-cases, Option-cases, inl, inr, All,
}
use kaede.Prelude.Text.{Free}
use kaede.Prelude.Text.Splitting.{is_free, is_free-Free}
use kaede.Prelude.Dictionary.{Dictionary, get}
use kaede.Outcome.{ok}
use kaede.Exec.{pure}
use kaede.Hooks.{Hook, IsSilent}
use kaede.Hooks.Laws.{sync_share-of_IsSilent}
use kaede.Meta.{Account, FinalizedPatch, Necessaries}
use kaede.Arguments.Replace.{
  placeholder, replace_placeholders, replacements_of, auth_replacements_of, with_auth,
  replace_launch_arguments,
}
use kaede.Arguments.Replace.Template.{
  Piece, literal, key, dollar, brace, IsPiece, print, fill, HasPlainKeys, replace-print,
}

-- No value of the table has a "$".
abbrev pub HasPlainValues : Dictionary String → Type 0
HasPlainValues [] = Unit
HasPlainValues ((k, v) ∷ table) = Free dollar v × HasPlainValues table

-- A template after the first pass.
abbrev after_pass : Dictionary String → List Piece → List Piece
after_pass table [] = []
after_pass table (literal t ∷ pieces) = literal t ∷ after_pass table pieces
after_pass table (key k ∷ pieces) =
    elim (get k table) [ none ↦ key k | some v ↦ literal v ] ∷ after_pass table pieces

get-Free :
    (table : Dictionary String) (k v : String)
    → HasPlainValues table
    → get k table ≡ some v
    → Free dollar v
unfolding get
get-Free [] k v h e = absurd (cc)
get-Free ((j, w) ∷ table) k v h e = elim (Bool-cases (str_eq j k)) [
  | inl eq ↦ subst (Free dollar) (some_inj (rw eq at e)) h.0
  | inr ne ↦ get-Free table k v h.1 (rw ne at e)
]
  where
    some_inj : {a b : String} → some a ≡ some b → a ≡ b
    some_inj e = cc

print-after_pass :
    (table : Dictionary String) (pieces : List Piece)
    → print (after_pass table pieces) ≡ fill table pieces
print-after_pass table [] = refl
print-after_pass table (literal t ∷ pieces) = ap (λ u. t ⊕ u) (print-after_pass table pieces)
print-after_pass table (key k ∷ pieces) = elim (Option-cases (get k table)) [
  | inl e ↦ rw e (ap (λ u. placeholder k ⊕ u) (print-after_pass table pieces))
  | inr (v, e) ↦ rw e (ap (λ u. v ⊕ u) (print-after_pass table pieces))
]

after_pass-IsPiece :
    (table : Dictionary String) (pieces : List Piece)
    → HasPlainValues table
    → All IsPiece pieces
    → All IsPiece (after_pass table pieces)
after_pass-IsPiece table [] plain h = tt
after_pass-IsPiece table (literal t ∷ pieces) plain h =
    (h.0, after_pass-IsPiece table pieces plain h.1)
after_pass-IsPiece table (key k ∷ pieces) plain h = elim (Option-cases (get k table)) [
  | inl e ↦ rw e (h.0, after_pass-IsPiece table pieces plain h.1)
  | inr (v, e) ↦ rw e (get-Free table k v plain e, after_pass-IsPiece table pieces plain h.1)
]

get-append :
    (table others : Dictionary String) (k : String)
    → get k (table ++ others) ≡ elim (get k table) [ none ↦ get k others | some v ↦ some v ]
unfolding get
get-append [] others k = refl
get-append ((j, w) ∷ table) others k = elim (Bool-cases (str_eq j k)) [
  | inl e ↦ rw e refl
  | inr e ↦ rw e (get-append table others k)
]

fill-after_pass :
    (table others : Dictionary String) (pieces : List Piece)
    → fill others (after_pass table pieces) ≡ fill (table ++ others) pieces
fill-after_pass table others [] = refl
fill-after_pass table others (literal t ∷ pieces) =
    ap (λ u. t ⊕ u) (fill-after_pass table others pieces)
fill-after_pass table others (key k ∷ pieces) = elim (Option-cases (get k table)) [
  | inl e ↦
      rw (get-append table others k, e)
        (ap (λ u. default (placeholder k) (get k others) ⊕ u) (fill-after_pass table others pieces))
  | inr (v, e) ↦
      rw (get-append table others k, e) (ap (λ u. v ⊕ u) (fill-after_pass table others pieces))
]

-- Two passes make one with both tables.
two_passes :
    (table others : Dictionary String) (pieces : List Piece)
    → HasPlainKeys table
    → HasPlainKeys others
    → HasPlainValues table
    → All IsPiece pieces
    → replace_placeholders others (replace_placeholders table (print pieces))
      ≡ fill (table ++ others) pieces
two_passes table others pieces keys other_keys values h =
    ap (replace_placeholders others)
      (replace-print table pieces keys h ∙ sym (print-after_pass table pieces))
    ∙ replace-print others (after_pass table pieces) other_keys
        (after_pass-IsPiece table pieces values h)
    ∙ fill-after_pass table others pieces

-- A test for plain keys, for the tables of the source.
are_plain : Dictionary String → Bool
are_plain [] = true
are_plain ((k, v) ∷ table) = is_free brace k && are_plain table

are_plain-HasPlainKeys : (table : Dictionary String) → are_plain table ≡ true → HasPlainKeys table
unfolding are_plain
are_plain-HasPlainKeys [] h = tt
are_plain-HasPlainKeys ((k, v) ∷ table) h =
    ground (arith, is_free-Free brace k, are_plain-HasPlainKeys table)

replacements-HasPlainKeys :
    (launcher_version : String) (auth : Account) (class_paths : String) (necessaries : Necessaries)
    (patch : FinalizedPatch)
    → HasPlainKeys (replacements_of launcher_version auth class_paths necessaries patch)
unfolding are_plain is_free
replacements-HasPlainKeys launcher_version auth class_paths necessaries patch =
    are_plain-HasPlainKeys (replacements_of launcher_version auth class_paths necessaries patch)
      refl

auth-HasPlainKeys : (auth : Account) → HasPlainKeys (auth_replacements_of auth)
unfolding are_plain is_free
auth-HasPlainKeys auth = are_plain-HasPlainKeys (auth_replacements_of auth) refl

map_passes :
    (table others : Dictionary String) (templates : List (List Piece))
    → HasPlainKeys table
    → HasPlainKeys others
    → HasPlainValues table
    → All (All IsPiece) templates
    → map (replace_placeholders others) (map (replace_placeholders table) (map print templates))
      ≡ map (fill (table ++ others)) templates
map_passes table others [] keys other_keys values h = refl
map_passes table others (pieces ∷ templates) keys other_keys values h =
    rw (two_passes table others pieces keys other_keys values h.0) (
      ap (λ rest. fill (table ++ others) pieces ∷ rest)
        (map_passes table others templates keys other_keys values h.1))

pub replace_launch_arguments-of_IsSilent :
    {S : Type 0} (launcher_version : String)
    (before after : Option (
      List (
        Hook (S × (Dictionary String × List String)) (Necessaries × FinalizedPatch) (List String))))
    (auth : Account) (to_replace : List String) (class_paths : String) (necessaries : Necessaries)
    (patch : FinalizedPatch) (s : S)
    → IsSilent before
    → IsSilent after
    → replace_launch_arguments launcher_version before after auth to_replace class_paths necessaries
        patch s
      ≡ (
        ok (
            map (replace_placeholders (auth_replacements_of auth)) (
              map
                (replace_placeholders
                  (replacements_of launcher_version auth class_paths necessaries patch))
                to_replace)),
        s,
      )
unfolding replace_launch_arguments with_auth
replace_launch_arguments-of_IsSilent launcher_version before after auth to_replace class_paths
      necessaries patch s no_before no_after =
    sync_share-of_IsSilent before (necessaries, patch)
      (replacements_of launcher_version auth class_paths necessaries patch, to_replace)
      (with_auth after auth necessaries patch) s no_before
    ∙ sync_share-of_IsSilent after (necessaries, patch) (auth_replacements_of auth, to_replace)
        (λ last. pure (
          map (replace_placeholders last.0) (
            map
              (replace_placeholders
                (replacements_of launcher_version auth class_paths necessaries patch))
              to_replace)))
        s no_after

-- Where no hook for the replacement is registered, the values of the first table hold no dollar
-- sign, and the arguments are templates whose texts hold no dollar sign and whose keys hold
-- neither a dollar sign nor a closing brace, replaceLaunchArguments returns each template with
-- its known keys replaced from both tables at once, the first before that of the account, with
-- the unknown placeholders as they were, and leaves the state as it was.
pub replace_launch_arguments-fill :
    {S : Type 0} (launcher_version : String)
    (before after : Option (
      List (
        Hook (S × (Dictionary String × List String)) (Necessaries × FinalizedPatch) (List String))))
    (auth : Account) (templates : List (List Piece)) (class_paths : String)
    (necessaries : Necessaries) (patch : FinalizedPatch) (s : S)
    → IsSilent before
    → IsSilent after
    → HasPlainValues (replacements_of launcher_version auth class_paths necessaries patch)
    → All (All IsPiece) templates
    → replace_launch_arguments launcher_version before after auth
        (map print templates)
        class_paths
        necessaries
        patch
        s
      ≡ (
        ok (
            map
              (fill (
                replacements_of launcher_version auth class_paths necessaries patch
                ++ auth_replacements_of auth))
              templates),
        s,
      )
replace_launch_arguments-fill launcher_version before after auth templates class_paths necessaries
      patch s no_before no_after values h =
    replace_launch_arguments-of_IsSilent launcher_version before after auth (map print templates)
      class_paths necessaries patch s no_before no_after
    ∙ ap (λ arguments. (ok arguments, s))
        (map_passes (replacements_of launcher_version auth class_paths necessaries patch)
          (auth_replacements_of auth) templates
          (replacements-HasPlainKeys launcher_version auth class_paths necessaries patch)
          (auth-HasPlainKeys auth) values h)
