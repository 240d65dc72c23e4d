-- ===== src/Patches/SubPatches/Cycles.antt =====
-- Where the dependencies go round, resolveSubPatches does not end: no patch is marked as seen.
use mathlib.Core.List.{Memᴰ}
use mathlib.Core.List.Memᴰ
use mathlib.Core.Path.{subst}
use kaede.Prelude.{
  ℕ, zero, suc, Option, none, some, List, [], ◌∷◌, ◌++◌, map, ◌≡◌, refl, ◌∙◌, sym, inl, inr,
}
use kaede.Prelude.Filtered.{map-mem}
use kaede.Outcome.{ok}
use kaede.Exec.{>>=-of-eq}
use kaede.Statuses.{Launch}
use kaede.Meta.{Dependency, Patch, Necessaries}
use kaede.Patches.Resolve.{Sources}
use kaede.Patches.SubPatches.{
  requires_of, resolved, resolve_group, resolve_all, resolve_sub_patches,
}
use kaede.Patches.SubPatches.Closure.{Gives, AreResults, resolve_group-AreResults}
use kaede.Patches.SubPatches.Termination.{resolve_group-NeverThrows}

module _ {W : Type 0} (sources : Sources W) (necessaries : Necessaries) (patch_meta : Patch)
    (Round : Dependency → Type 0) where
  -- The group has a dependency of the round.
  abbrev pub Enters : Option (List Dependency) → Type 0
  Enters groups =
      (group : List Dependency) × (d : Dependency) × (groups ≡ some group) × Memᴰ d group × Round d

  -- A dependency of the round is only ever resolved to a patch that requires one again.
  abbrev pub GoesRound : Type 0
  GoesRound =
      (d : Dependency)
      → Round d
      → (result : Option Patch) → Gives sources necessaries patch_meta d result
      → (p : Patch) × (result ≡ some p) × Enters p.requires

  module _ (round : GoesRound) where
    of_head :
        (d : Dependency) (r : Option Patch) (results : List (Option Patch))
        → Round d
        → Gives sources necessaries patch_meta d r
        → (p : Patch) × Memᴰ p (resolved (r ∷ results)) × Enters p.requires
    of_head d r results inside run =
        let (p, e, enters) = round d inside r run in
        (p, subst (λ o. Memᴰ p (resolved (o ∷ results))) (sym e) (Memᴰ.head refl), enters)

    more_of :
        (p : Patch) (r : Option Patch) (results : List (Option Patch))
        → Memᴰ p (resolved results)
        → Memᴰ p (resolved (r ∷ results))
    more_of p none results m = m
    more_of p (some q) results m = Memᴰ.tail m

    Enters-resolved :
        (group : List Dependency) (results : List (Option Patch)) (d : Dependency)
        → AreResults sources necessaries patch_meta group results
        → Memᴰ d group
        → Round d
        → (p : Patch) × Memᴰ p (resolved results) × Enters p.requires
    Enters-resolved [] results d given m inside = absurd (Memᴰ.not-nil m)
    Enters-resolved (e ∷ group) [] d given m inside = absurd given
    Enters-resolved (e ∷ group) (r ∷ results) d (run, given) m inside = elim (Memᴰ.cases_cons m) [
      | inl same ↦ of_head e r results (subst Round same inside) run
      | inr n ↦
          let (p, k, enters) = Enters-resolved group results d given n inside in
          (p, more_of p r results k, enters)
    ]

    resolve_all_runs_on :
        (fuel : ℕ) (groups : List (Option (List Dependency))) (patches : List Patch) (s : Launch W)
        (g : Option (List Dependency))
        → Memᴰ g groups
        → Enters g
        → (s' : Launch W) × (resolve_all sources necessaries patch_meta fuel groups patches s
            ≡ (ok none, s'))
    unfolding resolve_all
    resolve_all_runs_on zero [] patches s g m enters = absurd (Memᴰ.not-nil m)
    resolve_all_runs_on (suc fuel) [] patches s g m enters = absurd (Memᴰ.not-nil m)
    resolve_all_runs_on zero (group ∷ groups) patches s g m enters = (s, refl)
    resolve_all_runs_on (suc fuel) (none ∷ groups) patches s g m (group, d, e, k, inside) =
        elim (Memᴰ.cases_cons m) [
          | inl same ↦ absurd (cc)
          | inr n ↦ resolve_all_runs_on fuel groups patches s g n (group, d, e, k, inside)
        ]
    resolve_all_runs_on (suc fuel) (some first ∷ groups) patches s g m (group, d, e, k, inside) =
        let (results, t, ran) = resolve_group-NeverThrows sources necessaries patch_meta first s in
        let given = resolve_group-AreResults sources necessaries patch_meta first results s t ran in
        let later = groups ++ map requires_of (resolved results) in
        let (s', rest) =
          elim (Memᴰ.cases_cons m)
            as (λ _.
              (s' : Launch W) × (resolve_all sources necessaries patch_meta fuel later
                  (patches ++ resolved results) t
                ≡ (ok none, s'))) [
                  | inl same ↦
                      let listed : Memᴰ d first = subst (Memᴰ d) (cc) k in
                      let (p, q, enters) = Enters-resolved first results d given listed inside in
                      resolve_all_runs_on fuel later (patches ++ resolved results) t p.requires
                        (Memᴰ.append_right groups (map-mem requires_of p (resolved results) q))
                        enters
                  | inr n ↦
                      resolve_all_runs_on fuel later (patches ++ resolved results) t g
                        (Memᴰ.append_left (map requires_of (resolved results)) n)
                        (group, d, e, k, inside)
                ] in
        (s', >>=-of-eq (resolve_group sources necessaries patch_meta first) _ ran ∙ rest)

    -- If each dependency of some set is only ever resolved to a patch that requires a dependency
    -- of the set, and the given patch requires one, then no fuel is enough for resolveSubPatches:
    -- it does not end.
    pub resolve_sub_patches_runs_on :
        (fuel : ℕ) (s : Launch W)
        → Enters patch_meta.requires
        → (s' : Launch W) × (resolve_sub_patches sources necessaries patch_meta fuel s
            ≡ (ok none, s'))
    unfolding resolve_sub_patches
    resolve_sub_patches_runs_on fuel s enters =
        resolve_all_runs_on fuel (patch_meta.requires ∷ []) (patch_meta ∷ []) s patch_meta.requires
          (Memᴰ.head refl) enters
