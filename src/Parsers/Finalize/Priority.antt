-- ===== src/Parsers/Finalize/Priority.antt =====
-- Which patch a field of the finalized patch comes from: the patches come from parents to
-- dependencies, and the loop of finalize-patches.ts goes through them in reverse, so that the first
-- patch that gives a field wins.
use mathlib.Core.List.{reverse, reverse-cons, append_assoc, append-nil}
use kaede.Prelude.{
  String, Option, none, some, List, [], ◌∷◌, ◌++◌, ◌≡◌, refl, sym, ap, ◌∙◌, default,
}
use mathlib.Core.Path.{subst}
use kaede.Outcome.{ok}
use kaede.Exec.{>>=-eq-ok, pure_inj}
use kaede.Statuses.{LauncherStatuses}
use kaede.Prelude.Dictionary.{Dictionary}
use kaede.Meta.{Artifact, LoggingArtifact, Patch, FinalizedPatch, Necessaries}
use kaede.Parsers.ArtifactPath.{truthy}
use kaede.Parsers.Libraries.{LibrariesHooks}
use kaede.Parsers.Finalize.{
  Building, initial, default_main_class, overwrite, overwrite_option, take_fields, after_round,
  add_patch, add_patches, finalize_patches,
}
use kaede.Parsers.Finalize.Rounds.{add_patch-Round}

module _ {A : Type 0} (field : Patch → Option A) where
  -- The first value that a list of patches gives.
  abbrev pub first_given : List Patch → Option A
  first_given [] = none
  first_given (patch ∷ patches) = elim (field patch) [
    | none ↦ first_given patches
    | some a ↦ some a
  ]

  -- The last value, or the old one.
  abbrev last_given : Option A → List Patch → Option A
  last_given old [] = old
  last_given old (patch ∷ patches) = last_given (overwrite_option old (field patch)) patches

  last_given-snoc :
      (old : Option A) (patches : List Patch) (patch : Patch)
      → last_given old (patches ++ patch ∷ [])
        ≡ overwrite_option (last_given old patches) (field patch)
  last_given-snoc old [] patch = refl
  last_given-snoc old (p ∷ patches) patch =
      last_given-snoc (overwrite_option old (field p)) patches patch

  last_given-reverse :
      (patches : List Patch) → last_given none (reverse patches) ≡ first_given patches
  last_given-reverse [] = refl
  last_given-reverse (patch ∷ patches) =
      rw (reverse-cons) (
        last_given-snoc none (reverse patches) patch
        ∙ go (field patch) (last_given-reverse patches))
    where
      go :
          (o : Option A)
          → last_given none (reverse patches) ≡ first_given patches
          → overwrite_option (last_given none (reverse patches)) o
            ≡ (elim o [ none ↦ first_given patches | some a ↦ some a ])
      go none e = e
      go (some a) e = refl

-- The lists that the patches give, one after the other.
abbrev pub given : (Patch → Option (List String)) → List Patch → List String
given field [] = []
given field (patch ∷ patches) = default [] (field patch) ++ given field patches

-- What a list of rounds makes of the plain fields.
record Taken (patches : List Patch) (old new : FinalizedPatch) : Type 0 where
  main_class :
      (o : Option String)
      → old.main_class ≡ default default_main_class o
      → new.main_class
        ≡ default default_main_class (last_given (λ p. truthy p.main_class) o patches)
  minecraft_arguments :
      (o : Option String)
      → old.minecraft_arguments ≡ default "" o
      → new.minecraft_arguments
        ≡ default "" (last_given (λ p. truthy p.minecraft_arguments) o patches)
  asset_index : new.asset_index ≡ last_given (λ p. p.asset_index) old.asset_index patches
  type : new.type ≡ last_given (λ p. truthy p.type) old.type patches
  jvm_args : new.jvm_args ≡ old.jvm_args ++ given (λ p. p.jvm_args) patches
  traits : new.traits ≡ old.traits ++ given (λ p. p.traits) patches
  tweakers : new.tweakers ≡ old.tweakers ++ given (λ p. p.tweakers) patches

overwrite-default {ℓ} :
    {A : Type ℓ} (d old : A) (o n : Option A)
    → old ≡ default d o
    → overwrite old n ≡ default d (overwrite_option o n)
overwrite-default d old o none h = h
overwrite-default d old o (some a) h = refl

-- What one round makes of the plain fields.
Taken-after_round :
    (patch : Patch) (patches : List Patch) (b : Building) (new : FinalizedPatch)
    (found : List Artifact) (unique : Dictionary Artifact) (logging : Option LoggingArtifact)
    (client : Option Artifact)
    → Taken patches (after_round patch b found unique logging client).built new
    → Taken (patch ∷ patches) b.built new
unfolding after_round take_fields
Taken-after_round patch patches b new found unique logging client t = record {
  main_class = λ o e.
      t.main_class _
        (overwrite-default default_main_class b.built.main_class o (truthy patch.main_class) e);
  minecraft_arguments = λ o e.
      t.minecraft_arguments _
        (overwrite-default "" b.built.minecraft_arguments o (truthy patch.minecraft_arguments) e);
  asset_index = t.asset_index;
  type = t.type;
  jvm_args = t.jvm_args ∙ append_assoc b.built.jvm_args _ _;
  traits = t.traits ∙ append_assoc b.built.traits _ _;
  tweakers = t.tweakers ∙ append_assoc b.built.tweakers _ _;
}

module _ (delimiter : String) (hooks : LibrariesHooks) (necessaries : Necessaries) where
  add_patches-Taken :
      (patches : List Patch) (b b' : Building) (s s' : LauncherStatuses)
      → add_patches delimiter hooks necessaries patches b s ≡ (ok b', s')
      → Taken patches b.built b'.built
  unfolding add_patches
  add_patches-Taken [] b b' s s' h =
      let e = (pure_inj b b' s s' h).0 in
      subst (λ c. Taken [] b.built c.built) e
        (record {
          main_class = λ o e. e;
          minecraft_arguments = λ o e. e;
          asset_index = refl;
          type = refl;
          jvm_args = sym (append-nil b.built.jvm_args);
          traits = sym (append-nil b.built.traits);
          tweakers = sym (append-nil b.built.tweakers);
        })
  add_patches-Taken (patch ∷ patches) b b' s s' h =
      let (next, t, first, rest) = >>=-eq-ok (add_patch delimiter hooks necessaries patch b) _ h in
      let round = add_patch-Round delimiter hooks necessaries patch b next s t first in
      let ih = add_patches-Taken patches next b' t s' rest in
      Taken-after_round patch patches b b'.built round.found round.with_plus round.logging
        round.client (subst (λ c. Taken patches c.built b'.built) (sym round.result) ih)

  -- The first patch in the given order wins, and the lists are those of the last patch first.
  pub record IsFirstGiven (patches : List Patch) (built : FinalizedPatch) : Type 0 where
    pub main_class :
        built.main_class
        ≡ default default_main_class (first_given (λ p. truthy p.main_class) patches)
    pub minecraft_arguments :
        built.minecraft_arguments
        ≡ default "" (first_given (λ p. truthy p.minecraft_arguments) patches)
    pub asset_index : built.asset_index ≡ first_given (λ p. p.asset_index) patches
    pub type : built.type ≡ first_given (λ p. truthy p.type) patches
    pub jvm_args : built.jvm_args ≡ given (λ p. p.jvm_args) (reverse patches)
    pub traits : built.traits ≡ given (λ p. p.traits) (reverse patches)
    pub tweakers : built.tweakers ≡ given (λ p. p.tweakers) (reverse patches)

  -- If finalizePatches returns, the main class, the game arguments, the asset index and the type
  -- are those of the first patch in the given order that has one (not the empty text), or the
  -- default main class, the empty text and nothing; and the JVM arguments, traits and tweakers
  -- are those of the patches one after the other, from the last patch to the first. The hooks of
  -- the libraries are arbitrary.
  pub finalize_patches-IsFirstGiven :
      (patches : List Patch) (built : FinalizedPatch) (s s' : LauncherStatuses)
      → finalize_patches delimiter hooks necessaries patches s ≡ (ok built, s')
      → IsFirstGiven patches built
  unfolding finalize_patches
  finalize_patches-IsFirstGiven patches built s s' h =
      let (b, t, run, rest) =
        >>=-eq-ok (add_patches delimiter hooks necessaries (reverse patches) initial) _ h in
      let taken = add_patches-Taken (reverse patches) initial b s t run in
      let e = (pure_inj _ built t s' rest).0 in
      subst (IsFirstGiven patches) e (record {
        main_class =
            taken.main_class none refl
            ∙ ap (default default_main_class)
                (last_given-reverse (λ p. truthy p.main_class) patches);
        minecraft_arguments =
            taken.minecraft_arguments none refl
            ∙ ap (default "") (last_given-reverse (λ p. truthy p.minecraft_arguments) patches);
        asset_index = taken.asset_index ∙ last_given-reverse (λ p. p.asset_index) patches;
        type = taken.type ∙ last_given-reverse (λ p. truthy p.type) patches;
        jvm_args = taken.jvm_args;
        traits = taken.traits;
        tweakers = taken.tweakers;
      })
