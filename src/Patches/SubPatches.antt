-- ===== src/Patches/SubPatches.antt =====
-- resolve-sub-patches.ts: the patches that a patch requires, and those that they require, by a queue
-- of groups of dependencies. The calls of a group run one after the other, in one of the orders that
-- Promise.all allows. The loop takes fuel, one for each group.
pub mod Closure
pub mod Cycles
pub mod Termination
use kaede.Prelude.{ℕ, zero, suc, ◌+◌, Option, none, some, List, [], ◌∷◌, ◌++◌, map}
use kaede.Exec.{Exec, pure, ◌>>=◌}
use kaede.Statuses.{Launch}
use kaede.Meta.{Dependency, Patch, Necessaries}
use kaede.Patches.Resolve.{Sources, resolve_patch}

abbrev pub requires_of : Patch → Option (List Dependency)
requires_of patch = patch.requires

-- the results that are not `false`
abbrev pub resolved : List (Option Patch) → List Patch
resolved [] = []
resolved (none ∷ results) = resolved results
resolved (some patch ∷ results) = patch ∷ resolved results

module _ {W : Type 0} (sources : Sources W) (necessaries : Necessaries) (patch_meta : Patch) where
  pub resolve_group : List Dependency → Exec (Launch W) (List (Option Patch))
  resolve_group [] = pure []
  resolve_group (required ∷ group) = do
    result ← resolve_patch sources necessaries (some patch_meta) required
    results ← resolve_group group
    pure (result ∷ results)

  -- `none` where the fuel runs out
  pub resolve_all :
      ℕ → List (Option (List Dependency)) → List Patch → Exec (Launch W) (Option (List Patch))
  unfolding resolve_group
  resolve_all fuel [] patches = pure (some patches)
  resolve_all zero (group ∷ to_resolve) patches = pure none
  resolve_all (suc fuel) (none ∷ to_resolve) patches = resolve_all fuel to_resolve patches
  resolve_all (suc fuel) (some group ∷ to_resolve) patches = do
    results ← resolve_group group
    resolve_all fuel (to_resolve ++ map requires_of (resolved results))
        (patches ++ resolved results)

  unfoldable pub resolve_sub_patches : ℕ → Exec (Launch W) (Option (List Patch))
  unfolding resolve_all
  resolve_sub_patches fuel = resolve_all fuel (patch_meta.requires ∷ []) (patch_meta ∷ [])
