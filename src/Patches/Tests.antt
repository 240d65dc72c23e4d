-- ===== src/Patches/Tests.antt =====
-- Runs of the resolution of patches, and an instance of each of its theorems.
use mathlib.Core.List.{Memᴰ}
use kaede.Prelude.{
  String, true, Option, none, some, List, [], ◌∷◌, ◌≡◌, refl, sym, str_eq, if◌then◌else◌, arith,
}
use kaede.Prelude.Dictionary.{get, put}
use kaede.Prelude.Text.{join}
use kaede.Outcome.{Outcome, ok, throw, rejected}
use kaede.Exec.{pure, lift, pure_inj}
use kaede.Hooks.{Scope, catch_async_response_hooks}
use kaede.FileManager.{file_join}
use kaede.FileManager.JsonFile.{check_days_difference, handle_json_file}
use kaede.Json.{Json, text, array, object, nil, cons, end, field, read}
use kaede.Meta.{Dependency, Patch}
use kaede.Network.Http.{Fetch}
use kaede.Network.Metadata.{fetch_metadata, refetch}
use kaede.Patches.Version.{resolve_patch_version}
use kaede.Patches.Version.Chosen.{IsChosen, resolve_patch_version-IsChosen}
use kaede.Patches.Resolve.{ResolvePayload, Sources, resolve_patch}
use kaede.Patches.Resolve.Total.{resolve_patch-NeverThrows}
use kaede.Patches.SubPatches.{resolve_sub_patches}
use kaede.Patches.SubPatches.Closure.{IsClosure, resolve_sub_patches-IsClosure}
use kaede.Patches.SubPatches.Cycles.{GoesRound, resolve_sub_patches_runs_on}
use kaede.Patches.SubPatches.Termination.{IsTreeSize, resolve_sub_patches_ends}
use kaede.Samples.{Machine, machine, statuses, disk}

code : Unit {0}
unfolding get put join file_join handle_json_file check_days_difference read fetch_metadata refetch
    resolve_patch_version resolve_patch resolve_sub_patches catch_async_response_hooks
code = tt

abbrev patch_named : String → Option (List Dependency) → Patch
patch_named uid requires = record {
  uid = uid;
  jvm_args = none;
  traits = none;
  tweakers = none;
  maven_files = none;
  libraries = none;
  plus_libraries = none;
  main_class = none;
  minecraft_arguments = none;
  asset_index = none;
  type = none;
  logging = none;
  main_jar = none;
  requires = requires;
}

abbrev dependency : String → Dependency
dependency uid = record { uid = uid; equals = none; suggests = none }

abbrev game : Patch
game = patch_named "net.minecraft" none

abbrev loader : Patch
loader =
    patch_named "net.fabricmc.fabric-loader"
      (some (dependency "net.minecraft" ∷ dependency "gone" ∷ []))

abbrev own_parent : Patch
own_parent = patch_named "a" (some (dependency "a" ∷ []))

abbrev index : Json
index =
    object (field "versions" (array (cons (object (field "version" (text "0.15") end)) nil)) end)

-- A server with an index of the loader, and the files of two patches by their names.
abbrev answer : String → Outcome Json
answer url =
    if str_eq url "https://meta.prismlauncher.org/v1/net.fabricmc.fabric-loader"
    then ok index
    else if str_eq url "https://meta.prismlauncher.org/v1/net.fabricmc.fabric-loader/0.15.json"
    then ok (text "loader")
    else if str_eq url "https://meta.prismlauncher.org/v1/net.minecraft/1.20.1.json"
    then ok (text "game")
    else throw (rejected url)

abbrev serve : Fetch Machine
serve request =
    pure
      (record { is_ok = true; status = 200; json = lift (answer request.url); data_url = pure "" })

abbrev validate : Option Json → Option Patch
validate (some (text name)) =
    if str_eq name "loader" then some loader else if str_eq name "game" then some game else none
validate _ = none

abbrev silent : Scope Machine ResolvePayload (Option Patch)
silent = record { before = none; after = none }

-- A hook that answers for every patch.
abbrev answering : Patch → Scope Machine ResolvePayload (Option Patch)
answering patch = record {
  before = some ((λ p. pure (record { status = "stop"; response = some (some patch) })) ∷ []);
  after = none;
}

abbrev sources_with : Scope Machine ResolvePayload (Option Patch) → Sources (List (String × String))
sources_with hooks = record {
  files = disk;
  fetch = serve;
  hooks = hooks;
  validate = validate;
  optifine_patch = λ version. pure none;
}

abbrev start : Machine
start = ([], statuses)

-- The result of a run.
result_of : {A : Type 0} → Outcome A × Machine → Outcome A
result_of r = r.0

-- The version of the user, through the cache and the server; then the latest of an index.
resolve_game :
    result_of (resolve_patch (sources_with silent) machine none (dependency "net.minecraft") start)
    ≡ ok (some game)
unfolding code result_of
resolve_game = refl

resolve_loader :
    result_of (
      resolve_patch
        (sources_with silent)
        machine
        none
        (dependency "net.fabricmc.fabric-loader")
        start)
    ≡ ok (some loader)
unfolding code result_of
resolve_loader = refl

resolve_tree :
    result_of (resolve_sub_patches (sources_with silent) machine loader 2 start)
    ≡ ok (some (loader ∷ game ∷ []))
unfolding code result_of
resolve_tree = refl

-- Without a version the file that is asked for is `false.json`.
resolve_gone :
    result_of (resolve_patch (sources_with silent) machine none (dependency "gone") start) ≡ ok none
unfolding code result_of
resolve_gone = refl

resolve_patch-NeverThrows_example :
    (r : Option Patch) × (t : Machine) × (resolve_patch
        (sources_with silent)
        machine
        none
        (dependency "gone")
        start
      ≡ (ok r, t))
resolve_patch-NeverThrows_example =
    resolve_patch-NeverThrows (sources_with silent) machine none (dependency "gone") start

abbrev after_version : Outcome (Option String) × Machine
after_version =
    resolve_patch_version disk serve machine (dependency "net.fabricmc.fabric-loader") start

-- What the dependency equals comes before what it suggests.
equals_before_suggests :
    result_of (
      resolve_patch_version disk serve machine
        (record { uid = "x"; equals = some "1"; suggests = some "2" })
        start)
    ≡ ok (some "1")
unfolding code result_of
equals_before_suggests = refl

resolve_patch_version-IsChosen_example :
    IsChosen disk serve machine
      (dependency "net.fabricmc.fabric-loader")
      (some "0.15")
      start
      after_version.1
unfolding code
resolve_patch_version-IsChosen_example =
    resolve_patch_version-IsChosen disk serve machine (dependency "net.fabricmc.fabric-loader")
      (some "0.15") start after_version.1 refl

resolve_sub_patches-IsClosure_example :
    IsClosure (sources_with silent) machine loader (loader ∷ game ∷ [])
unfolding code
resolve_sub_patches-IsClosure_example =
    resolve_sub_patches-IsClosure (sources_with silent) machine loader 2 (loader ∷ game ∷ []) start
      (resolve_sub_patches (sources_with silent) machine loader 2 start).1 refl

-- What a hook answers for each dependency.
answered :
    (patch meta : Patch) (d : Dependency) (r : Option Patch) (s s' : Machine)
    → resolve_patch (sources_with (answering patch)) machine (some meta) d s ≡ (ok r, s')
    → some patch ≡ r
unfolding code
answered patch meta d r s s' h = (pure_inj (some patch) r s s' h).0

-- The hook answers with a patch that requires nothing.
one_each : IsTreeSize (sources_with (answering game)) machine loader (λ d. 1)
one_each d patch s s' h =
    let e : some game ≡ some patch = answered game loader d (some patch) s s' h in
    let same : game ≡ patch = cc in rw (← same) (omega arith)

resolve_sub_patches_ends_example :
    (patches : List Patch) × (s' : Machine) × (resolve_sub_patches
        (sources_with (answering game))
        machine
        loader
        3
        start
      ≡ (ok (some patches), s'))
resolve_sub_patches_ends_example =
    resolve_sub_patches_ends (sources_with (answering game)) machine loader (λ d. 1) one_each 3
      start (omega arith)

-- The hook answers with a patch that requires itself.
in_a_circle : GoesRound (sources_with (answering own_parent)) machine own_parent (λ d. Unit)
in_a_circle d inside r (s, s', ran) =
    let e : some own_parent ≡ r = answered own_parent own_parent d r s s' ran in
    (own_parent, sym e, (dependency "a" ∷ [], dependency "a", refl, Memᴰ.head refl, tt))

resolve_sub_patches_runs_on_example :
    (s' : Machine) × (resolve_sub_patches
        (sources_with (answering own_parent))
        machine
        own_parent
        100
        start
      ≡ (ok none, s'))
resolve_sub_patches_runs_on_example =
    resolve_sub_patches_runs_on (sources_with (answering own_parent)) machine own_parent (λ d. Unit)
      in_a_circle 100 start (dependency "a" ∷ [], dependency "a", refl, Memᴰ.head refl, tt)
