-- ===== src/Patches/SubPatches/Closure.antt =====
-- What resolveSubPatches returns: the patch, and all that is required from it on.
use mathlib.Core.List.{Memᴰ}
use mathlib.Core.List.Memᴰ
use mathlib.Core.Path.{subst}
use kaede.Prelude.{
  ℕ, zero, suc, Option, none, some, List, [], ◌∷◌, ◌++◌, map, ◌≡◌, refl, ap, sym, ◌⊎◌, inl, inr,
  All,
}
use kaede.Prelude.Filtered.{map-mem, mem-map}
use kaede.Outcome.{Outcome, ok}
use kaede.Exec.{>>=-eq-ok, pure_inj}
use kaede.Statuses.{Launch}
use kaede.Meta.{Dependency, Patch, Necessaries}
use kaede.Patches.Resolve.{Sources, resolve_patch}
use kaede.Patches.SubPatches.{
  requires_of, resolved, resolve_group, resolve_all, resolve_sub_patches,
}

module _ {W : Type 0} (sources : Sources W) (necessaries : Necessaries) (patch_meta : Patch) where
  -- A run of resolvePatch for the dependency gives the result.
  abbrev pub Gives : Dependency → Option Patch → Type 0
  Gives d result =
      (s : Launch W) × (s' : Launch W) × (resolve_patch sources necessaries (some patch_meta) d s
        ≡ (ok result, s'))

  -- The patches on the way from `patch_meta`.
  pub data IsRequired : Patch → Type 0 where
    root : IsRequired patch_meta
    step :
        (patch : Patch) (group : List Dependency) (d : Dependency) {next : Patch}
        → IsRequired patch
        → patch.requires ≡ some group
        → Memᴰ d group
        → Gives d (some next)
        → IsRequired next

  abbrev pub ListedOrFalse : List Patch → Option Patch → Type 0
  ListedOrFalse patches none = Unit
  ListedOrFalse patches (some patch) = Memᴰ patch patches

  -- A dependency was resolved to `false` or to a patch of the list.
  abbrev pub IsAnswered : List Patch → Dependency → Type 0
  IsAnswered patches d = (result : Option Patch) × Gives d result × ListedOrFalse patches result

  abbrev pub AreAnswered : List Patch → Option (List Dependency) → Type 0
  AreAnswered patches none = Unit
  AreAnswered patches (some group) = All (IsAnswered patches) group

  ListedOrFalse-append :
      (xs ys : List Patch) (r : Option Patch) → ListedOrFalse xs r → ListedOrFalse (xs ++ ys) r
  ListedOrFalse-append xs ys none h = tt
  ListedOrFalse-append xs ys (some p) h = Memᴰ.append_left ys h

  All-IsAnswered_append :
      (xs ys : List Patch) (group : List Dependency)
      → All (IsAnswered xs) group
      → All (IsAnswered (xs ++ ys)) group
  All-IsAnswered_append xs ys [] h = tt
  All-IsAnswered_append xs ys (d ∷ group) ((r, run, listed), h) =
      ((r, run, ListedOrFalse-append xs ys r listed), All-IsAnswered_append xs ys group h)

  AreAnswered-append :
      (xs ys : List Patch) (group : Option (List Dependency))
      → AreAnswered xs group
      → AreAnswered (xs ++ ys) group
  AreAnswered-append xs ys none h = tt
  AreAnswered-append xs ys (some group) h = All-IsAnswered_append xs ys group h

  -- What the results of one group are.
  abbrev pub AreResults : List Dependency → List (Option Patch) → Type 0
  AreResults [] [] = Unit
  AreResults (d ∷ group) (r ∷ results) = Gives d r × AreResults group results
  AreResults _ _ = ⊥

  pub resolve_group-AreResults :
      (group : List Dependency) (results : List (Option Patch)) (s s' : Launch W)
      → resolve_group sources necessaries patch_meta group s ≡ (ok results, s')
      → AreResults group results
  unfolding resolve_group
  resolve_group-AreResults [] results s s' h =
      subst (AreResults []) (pure_inj [] results s s' h).0 tt
  resolve_group-AreResults (d ∷ group) results s s' h =
      let (result, t, first, more) =
        >>=-eq-ok (resolve_patch sources necessaries (some patch_meta) d) _ h in
      let (rest, u, second, last) =
        >>=-eq-ok (resolve_group sources necessaries patch_meta group) _ more in
      subst (AreResults (d ∷ group)) (pure_inj (result ∷ rest) results u s' last).0
        ((s, t, first), resolve_group-AreResults group rest t u second)

  All-IsAnswered_of_results :
      (patches : List Patch) (group : List Dependency) (results : List (Option Patch))
      → AreResults group results
      → ((p : Patch) → Memᴰ p (resolved results) → Memᴰ p patches)
      → All (IsAnswered patches) group
  All-IsAnswered_of_results patches [] results given listed = tt
  All-IsAnswered_of_results patches (d ∷ group) [] given listed = absurd given
  All-IsAnswered_of_results patches (d ∷ group) (none ∷ results) (run, given) listed =
      ((none, run, tt), All-IsAnswered_of_results patches group results given listed)
  All-IsAnswered_of_results patches (d ∷ group) (some p ∷ results) (run, given) listed = (
    (some p, run, listed p (Memᴰ.head refl)),
    All-IsAnswered_of_results patches group results given (λ q m. listed q (Memᴰ.tail m)),
  )

  module _ (patch : Patch) (all : List Dependency) (required : IsRequired patch)
      (requires : patch.requires ≡ some all) where
    IsRequired-of_results :
        (group : List Dependency) (results : List (Option Patch))
        → ((d : Dependency) → Memᴰ d group → Memᴰ d all)
        → AreResults group results
        → (p : Patch) → Memᴰ p (resolved results)
        → IsRequired p
    IsRequired-of_results [] [] within given p m = absurd (Memᴰ.not-nil m)
    IsRequired-of_results [] (r ∷ results) within given p m = absurd given
    IsRequired-of_results (d ∷ group) [] within given p m = absurd given
    IsRequired-of_results (d ∷ group) (none ∷ results) within (run, given) p m =
        IsRequired-of_results group results (λ e n. within e (Memᴰ.tail n)) given p m
    IsRequired-of_results (d ∷ group) (some q ∷ results) within (run, given) p m =
        elim (Memᴰ.cases_cons m) [
          | inl e ↦
              subst IsRequired (sym e)
                (step patch all d required requires (within d (Memᴰ.head refl)) run)
          | inr n ↦ IsRequired-of_results group results (λ e k. within e (Memᴰ.tail k)) given p n
        ]

  -- The invariant of the loop.
  record IsOnTheWay (groups : List (Option (List Dependency))) (patches : List Patch) : Type 0 where
    first : (rest : List Patch) × (patches ≡ patch_meta ∷ rest)
    sound : (p : Patch) → Memᴰ p patches → IsRequired p
    queued :
        (g : Option (List Dependency))
        → Memᴰ g groups
        → (p : Patch) × IsRequired p × (p.requires ≡ g)
    closed : (p : Patch) → Memᴰ p patches → Memᴰ p.requires groups ⊎ AreAnswered patches p.requires

  IsOnTheWay-skip :
      (groups : List (Option (List Dependency))) (patches : List Patch)
      → IsOnTheWay (none ∷ groups) patches
      → IsOnTheWay groups patches
  IsOnTheWay-skip groups patches i = record {
    first = i.first;
    sound = i.sound;
    queued = λ g m. i.queued g (Memᴰ.tail m);
    closed = λ p m. elim (i.closed p m) [
      | inl n ↦ elim (Memᴰ.cases_cons n) [
        | inl e ↦ inr (subst (AreAnswered patches) (sym e) tt)
        | inr k ↦ inl k
      ]
      | inr a ↦ inr a
    ];
  }

  IsOnTheWay-group :
      (group : List Dependency) (groups : List (Option (List Dependency))) (patches : List Patch)
      (results : List (Option Patch))
      → AreResults group results
      → IsOnTheWay (some group ∷ groups) patches
      → IsOnTheWay (groups ++ map requires_of (resolved results)) (patches ++ resolved results)
  IsOnTheWay-group group groups patches results given i =
      let found = resolved results in
      record {
        first = let (rest, e) = i.first in (rest ++ found, ap (λ (l : List Patch). l ++ found) e);
        sound = λ p m. elim (Memᴰ.append_cases patches m) [
          | inl n ↦ i.sound p n
          | inr n ↦ of_found p n
        ];
        queued = λ g m. elim (Memᴰ.append_cases groups m) [
          | inl n ↦ i.queued g (Memᴰ.tail n)
          | inr n ↦ let (p, k, e) = mem-map requires_of g found n in (p, of_found p k, e)
        ];
        closed = λ p m. elim (Memᴰ.append_cases patches m) [
          | inl n ↦ of_old p (i.closed p n)
          | inr n ↦ inl (Memᴰ.append_right groups (map-mem requires_of p found n))
        ];
      }
    where
      of_found : (p : Patch) → Memᴰ p (resolved results) → IsRequired p
      of_found p m =
          let (q, required, e) = i.queued (some group) (Memᴰ.head refl) in
          IsRequired-of_results q group required e group results (λ d n. n) given p m

      of_old :
          (p : Patch)
          → Memᴰ p.requires (some group ∷ groups) ⊎ AreAnswered patches p.requires
          → Memᴰ p.requires (groups ++ map requires_of (resolved results))
            ⊎ AreAnswered (patches ++ resolved results) p.requires
      of_old p (inr a) = inr (AreAnswered-append patches (resolved results) p.requires a)
      of_old p (inl n) = elim (Memᴰ.cases_cons n) [
        | inl e ↦ inr (
            subst (AreAnswered (patches ++ resolved results)) (sym e) (
              All-IsAnswered_of_results (patches ++ resolved results) group results given
                (λ q k. Memᴰ.append_right patches k)))
        | inr k ↦ inl (Memᴰ.append_left (map requires_of (resolved results)) k)
      ]

  -- The list is the patch with all that is required from it on.
  pub record IsClosure (patches : List Patch) : Type 0 where
    pub first : (rest : List Patch) × (patches ≡ patch_meta ∷ rest)
    pub sound : (p : Patch) → Memᴰ p patches → IsRequired p
    pub closed : (p : Patch) → Memᴰ p patches → AreAnswered patches p.requires

  IsOnTheWay-end :
      (patches all : List Patch) (s s' : Launch W)
      → IsOnTheWay [] patches
      → ◌≡◌ {A = Outcome (Option (List Patch)) × Launch W}
          (ok (some patches), s)
          (ok (some all), s')
      → IsClosure all
  IsOnTheWay-end patches all s s' i h = subst IsClosure same (record {
    first = i.first;
    sound = i.sound;
    closed = λ p m. elim (i.closed p m) [ inl n ↦ absurd (Memᴰ.not-nil n) | inr a ↦ a ];
  })
    where
      same : patches ≡ all
      same = cc

  resolve_all-IsClosure :
      (fuel : ℕ) (groups : List (Option (List Dependency))) (patches all : List Patch)
      (s s' : Launch W)
      → IsOnTheWay groups patches
      → resolve_all sources necessaries patch_meta fuel groups patches s ≡ (ok (some all), s')
      → IsClosure all
  unfolding resolve_all
  resolve_all-IsClosure zero [] patches all s s' i h = IsOnTheWay-end patches all s s' i h
  resolve_all-IsClosure (suc fuel) [] patches all s s' i h = IsOnTheWay-end patches all s s' i h
  resolve_all-IsClosure zero (group ∷ groups) patches all s s' i h = absurd (cc)
  resolve_all-IsClosure (suc fuel) (none ∷ groups) patches all s s' i h =
      resolve_all-IsClosure fuel groups patches all s s' (IsOnTheWay-skip groups patches i) h
  resolve_all-IsClosure (suc fuel) (some group ∷ groups) patches all s s' i h =
      let (results, t, ran, more) =
        >>=-eq-ok (resolve_group sources necessaries patch_meta group) _ h in
      resolve_all-IsClosure fuel (groups ++ map requires_of (resolved results))
        (patches ++ resolved results) all t s'
        (IsOnTheWay-group group groups patches results
          (resolve_group-AreResults group results s t ran) i)
        more

  -- If resolveSubPatches returns, its list begins with the given patch, every patch of it is the
  -- given one or the result of resolvePatch for a dependency of a patch that is required itself,
  -- and each dependency of each patch of the list was resolved, to false or to a patch of the
  -- list.
  pub resolve_sub_patches-IsClosure :
      (fuel : ℕ) (patches : List Patch) (s s' : Launch W)
      → resolve_sub_patches sources necessaries patch_meta fuel s ≡ (ok (some patches), s')
      → IsClosure patches
  unfolding resolve_sub_patches
  resolve_sub_patches-IsClosure fuel patches s s' h =
      resolve_all-IsClosure fuel (patch_meta.requires ∷ []) (patch_meta ∷ []) patches s s' start h
    where
      is_root : (p : Patch) → Memᴰ p (patch_meta ∷ []) → p ≡ patch_meta
      is_root p m = Memᴰ.eq_of_singleton m

      start : IsOnTheWay (patch_meta.requires ∷ []) (patch_meta ∷ [])
      start = record {
        first = ([], refl);
        sound = λ p m. subst IsRequired (sym (is_root p m)) root;
        queued = λ g m. (patch_meta, root, sym (Memᴰ.eq_of_singleton m));
        closed = λ p m. inl (Memᴰ.head (ap requires_of (is_root p m)));
      }
