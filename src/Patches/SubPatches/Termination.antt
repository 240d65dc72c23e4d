-- ===== src/Patches/SubPatches/Termination.antt =====
-- Where the dependencies form a tree, resolveSubPatches ends.
use kaede.Prelude.{
  ℕ, zero, suc, ◌+◌, ◌≤◌, Option, none, some, List, [], ◌∷◌, ◌++◌, map, ◌≡◌, refl, ◌∙◌, default,
  arith,
}
use kaede.Outcome.{ok}
use kaede.Exec.{>>=-eq-ok, >>=-of-eq, pure_inj}
use kaede.Exec.Total.{NeverThrows, pure-NeverThrows, >>=-NeverThrows}
use kaede.Statuses.{Launch}
use kaede.Meta.{Dependency, Patch, Necessaries}
use kaede.Patches.Resolve.{Sources, resolve_patch}
use kaede.Patches.Resolve.Total.{resolve_patch-NeverThrows}
use kaede.Patches.SubPatches.{
  requires_of, resolved, resolve_group, resolve_all, resolve_sub_patches,
}

module _ {W : Type 0} (sources : Sources W) (necessaries : Necessaries) (patch_meta : Patch) where
  pub resolve_group-NeverThrows :
      (group : List Dependency) → NeverThrows (resolve_group sources necessaries patch_meta group)
  unfolding resolve_group
  resolve_group-NeverThrows [] = pure-NeverThrows []
  resolve_group-NeverThrows (required ∷ group) =
      >>=-NeverThrows _ _ (resolve_patch-NeverThrows sources necessaries (some patch_meta) required)
        (λ result.
          >>=-NeverThrows (resolve_group sources necessaries patch_meta group) _
            (resolve_group-NeverThrows group) (λ results. pure-NeverThrows (result ∷ results)))

  -- the size of all dependencies of a group
  abbrev sizes : (Dependency → ℕ) → List Dependency → ℕ
  sizes size [] = 0
  sizes size (d ∷ group) = size d + sizes size group

  -- the size of the dependencies of a patch, or of a group, with one for the group itself
  abbrev weight : (Dependency → ℕ) → Option (List Dependency) → ℕ
  weight size group = suc (sizes size (default [] group))

  abbrev weights : (Dependency → ℕ) → List (Option (List Dependency)) → ℕ
  weights size [] = 0
  weights size (group ∷ groups) = weight size group + weights size groups

  -- Below a dependency there is room for those of any patch that it is resolved to.
  abbrev pub IsTreeSize : (Dependency → ℕ) → Type 0
  IsTreeSize size =
      (d : Dependency) (patch : Patch) (s s' : Launch W)
      → resolve_patch sources necessaries (some patch_meta) d s ≡ (ok (some patch), s')
      → weight size patch.requires ≤ size d

  weights-append :
      (size : Dependency → ℕ) (xs ys : List (Option (List Dependency)))
      → weights size (xs ++ ys) ≡ weights size xs + weights size ys
  weights-append size [] ys = omega arith
  weights-append size (x ∷ xs) ys = omega (arith, weights-append size xs ys)

  abbrev weight_of_result : (Dependency → ℕ) → Option Patch → ℕ
  weight_of_result size result = weights size (map requires_of (resolved (result ∷ [])))

  weights-resolved_cons :
      (size : Dependency → ℕ) (result : Option Patch) (results : List (Option Patch))
      → weights size (map requires_of (resolved (result ∷ results)))
        ≡ weight_of_result size result + weights size (map requires_of (resolved results))
  weights-resolved_cons size none results = omega arith
  weights-resolved_cons size (some patch) results = omega arith

  module _ (size : Dependency → ℕ) (is_tree : IsTreeSize size) where
    weight_of_result-le :
        (d : Dependency) (result : Option Patch) (s s' : Launch W)
        → resolve_patch sources necessaries (some patch_meta) d s ≡ (ok result, s')
        → weight_of_result size result ≤ size d
    weight_of_result-le d none s s' h = omega arith
    weight_of_result-le d (some patch) s s' h = omega (arith, is_tree d patch s s' h)

    weights-resolve_group :
        (group : List Dependency) (results : List (Option Patch)) (s s' : Launch W)
        → resolve_group sources necessaries patch_meta group s ≡ (ok results, s')
        → weights size (map requires_of (resolved results)) ≤ sizes size group
    unfolding resolve_group
    weights-resolve_group [] results s s' h =
        let e : [] ≡ results = (pure_inj [] results s s' h).0 in rw (← e) (omega arith)
    weights-resolve_group (d ∷ group) results s s' h =
        let (result, t, first, more) =
          >>=-eq-ok (resolve_patch sources necessaries (some patch_meta) d) _ h in
        let (rest, u, second, last) =
          >>=-eq-ok (resolve_group sources necessaries patch_meta group) _ more in
        let e : result ∷ rest ≡ results = (pure_inj (result ∷ rest) results u s' last).0 in
        rw (← e) (
          omega (
            arith,
            weights-resolved_cons size result rest,
            weight_of_result-le d result s t first,
            weights-resolve_group group rest t u second,
          ))

    resolve_all_ends :
        (fuel : ℕ) (groups : List (Option (List Dependency))) (patches : List Patch) (s : Launch W)
        → weights size groups ≤ fuel
        → (all : List Patch) × (s' : Launch W) × (resolve_all sources necessaries patch_meta fuel
              groups patches s
            ≡ (ok (some all), s'))
    unfolding resolve_all
    resolve_all_ends zero [] patches s h = (patches, s, refl)
    resolve_all_ends (suc fuel) [] patches s h = (patches, s, refl)
    resolve_all_ends zero (group ∷ groups) patches s h = absurd (omega arith)
    resolve_all_ends (suc fuel) (none ∷ groups) patches s h =
        resolve_all_ends fuel groups patches s (omega arith)
    resolve_all_ends (suc fuel) (some group ∷ groups) patches s h =
        let (results, t, ran) = resolve_group-NeverThrows group s in
        let (all, s', rest) =
          resolve_all_ends fuel (groups ++ map requires_of (resolved results))
            (patches ++ resolved results) t
            (omega (
              arith,
              weights-append size groups (map requires_of (resolved results)),
              weights-resolve_group group results s t ran,
            )) in
        (all, s', >>=-of-eq (resolve_group sources necessaries patch_meta group) _ ran ∙ rest)

    -- If dependencies have sizes such that one more than the sum of the sizes of what a resolved
    -- patch requires is at most the size of the dependency, then with fuel of one more than the
    -- sum for the given patch resolveSubPatches returns a list of patches, from every state.
    pub resolve_sub_patches_ends :
        (fuel : ℕ) (s : Launch W)
        → weight size patch_meta.requires ≤ fuel
        → (patches : List Patch) × (s' : Launch W) × (resolve_sub_patches sources necessaries
              patch_meta fuel s
            ≡ (ok (some patches), s'))
    unfolding resolve_sub_patches
    resolve_sub_patches_ends fuel s h =
        resolve_all_ends fuel (patch_meta.requires ∷ []) (patch_meta ∷ []) s (omega arith)
