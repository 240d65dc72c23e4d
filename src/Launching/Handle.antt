-- ===== src/Launching/Handle.antt =====
-- handle-launch.ts: a launch from its parts. The confirmation of the user is a parameter. The fields of
-- the information and of the finalized patch that hooks may change and that createCommand reads
-- afterwards are in the world. `none` is a launch whose queue of sub-patches has no fuel left.
pub mod Downloaded
pub mod Success
use kaede.Prelude.{
  String, ℕ, zero, suc, Bool, true, false, not, ltb, ◌&&◌, Option, none, some, List, [], ◌∷◌,
  str_eq, if◌then◌else◌,
}
use kaede.Outcome.{Outcome, ok, throw}
use kaede.Exec.{Exec, pure, modify, lift, attempt, ◌>>=◌, ◌>>◌}
use kaede.Network.Download.{Report}
use kaede.Modrinth.{Manifest, Unpack, install_mrpack}
use kaede.Statuses.{LauncherStatuses, Launch, set_status}
use kaede.Meta.{Live, Account, Dependency, Patch, FinalizedPatch, Necessaries}
use kaede.Parsers.Libraries.{LibrariesHooks}
use kaede.Parsers.Finalize.{finalize_patches}
use kaede.Patches.Resolve.{Sources, resolve_patch}
use kaede.Patches.SubPatches.{resolve_sub_patches}
use kaede.Arguments.Command.{ArgumentHooks, Command, create_command}
use kaede.Fetching.Platform.{Platform, both_done}
use kaede.Fetching.Assets.{download_assets}
use kaede.Fetching.Client.{download_client}
use kaede.Fetching.Logging.{download_logging}
use kaede.Fetching.Libraries.{download_libraries}
use kaede.Launching.PreLaunch.{Host, Preferences, directories_of, extract_pre_launch_information}
use kaede.Launching.Directories.{
  ensure_patch_directories, ensure_minecraft_directory, initialize_assets_directories,
}
use kaede.Launching.Natives.{Unzipping, native_archives, extract_native_archives}
use kaede.Launching.Spawn.{LaunchResponse, failed, Spawning, spawn_minecraft}

-- what handleLaunch reads of the instance and of the user
pub record Instance : Type 0 where
  pub id : String
  pub entry : String
  pub modpack_path : Option String
  pub preferences : Preferences

pub record Launcher (W : Type 0) : Type 0 where
  -- `hold` makes the objects of a launch anew, and `live` reads them as they are by then.
  pub hold : Live → W → W
  pub live : W → Live
  pub host : Host W
  pub platform : Platform W
  pub sources : Sources W
  pub libraries_hooks : LibrariesHooks
  pub argument_hooks : ArgumentHooks (Launch W)
  pub unzipping : Unzipping W
  pub spawning : Spawning W
  pub unpack : Unpack W
  pub confirm : Exec (Launch W) Bool
  pub os_version : String
  pub launcher_version : String

-- code that only has the statuses
abbrev pub on_statuses : {W A : Type 0} → Exec LauncherStatuses A → Exec (Launch W) A
on_statuses m (world, statuses) = let (result, after) = m statuses in (result, (world, after))

-- `installation.status`
abbrev pub is_installed : Outcome (Option Manifest × Report) → Bool
is_installed (ok (manifest, report)) = not (ltb 0 report.failed)
is_installed (throw e) = false

abbrev pub of_entry : String → Dependency
of_entry uid = record { uid = uid; equals = none; suggests = none }

module _ {W : Type 0} (launcher : Launcher W) (fuel : ℕ) (inst : Instance) where
  abbrev Response : Type 0
  Response = Option LaunchResponse

  abbrev pub extract_if : Necessaries → FinalizedPatch → Bool → Exec (Launch W) Bool
  extract_if necessaries patch false = pure false
  extract_if necessaries patch true = do
    extract_native_archives launcher.unzipping necessaries (native_archives patch)
    pure true

  -- the libraries, and then their natives
  pub libraries_and_natives : Necessaries → FinalizedPatch → Exec (Launch W) Bool
  libraries_and_natives necessaries patch = do
    fetched ← download_libraries launcher.platform necessaries patch
    extract_if necessaries patch fetched

  -- the four parts of `Promise.all`, one after the other; a rejection does not stop the others
  pub download_all : Necessaries → FinalizedPatch → Exec (Launch W) Bool
  unfolding libraries_and_natives
  download_all necessaries patch = do
    assets_tried ← attempt (download_assets launcher.platform necessaries patch)
    client_tried ← attempt (download_client launcher.platform necessaries patch)
    logging_tried ← attempt (download_logging launcher.platform necessaries patch)
    libraries_tried ← attempt (libraries_and_natives necessaries patch)
    assets ← lift assets_tried
    client ← lift client_tried
    logging ← lift logging_tried
    libraries ← lift libraries_tried
    pure (assets && client && logging && libraries)

  pub start_game : Necessaries → FinalizedPatch → Exec (Launch W) Response
  start_game necessaries patch = do
    command ←
        create_command launcher.os_version launcher.launcher_version launcher.argument_hooks
          (λ s. launcher.live s.0) necessaries patch
    response ← spawn_minecraft launcher.spawning command inst.id necessaries
    pure (some response)

  -- `finalizedPatch` comes into being.
  abbrev pub hold_arguments : FinalizedPatch → Launch W → Launch W
  hold_arguments patch (world, statuses) = (
    launcher.hold
        (record (launcher.live world) { minecraft_arguments = some patch.minecraft_arguments })
        world,
    statuses,
  )

  -- `necessaries` comes into being.
  abbrev pub hold_account : Necessaries → Launch W → Launch W
  hold_account necessaries (world, statuses) = (
    launcher.hold (record { account = necessaries.account; minecraft_arguments = none }) world,
    statuses,
  )

  abbrev pub if_downloaded : Necessaries → FinalizedPatch → Bool → Exec (Launch W) Response
  if_downloaded necessaries patch false = pure (some failed)
  if_downloaded necessaries patch true = start_game necessaries patch

  abbrev pub with_patches : Necessaries → Option (List Patch) → Exec (Launch W) Response
  with_patches necessaries none = pure none
  with_patches necessaries (some patches) = do
    patch ←
        on_statuses
          (finalize_patches launcher.host.delimiter launcher.libraries_hooks necessaries patches)
    modify (hold_arguments patch)
    downloaded ← download_all necessaries patch
    if_downloaded necessaries patch downloaded

  abbrev pub with_entry : Necessaries → Option Patch → Exec (Launch W) Response
  with_entry necessaries none = pure (some failed)
  with_entry necessaries (some patch) = do
    patches ← resolve_sub_patches launcher.sources necessaries patch fuel
    with_patches necessaries patches

  pub ensure_directories : Necessaries → Exec (Launch W) (Unit {0})
  ensure_directories necessaries = do
    patches_tried ← attempt (ensure_patch_directories launcher.platform necessaries)
    minecraft_tried ← attempt (ensure_minecraft_directory launcher.platform necessaries)
    assets_tried ← attempt (initialize_assets_directories launcher.platform necessaries)
    lift (both_done patches_tried (both_done minecraft_tried assets_tried))

  pub launch_installed : Necessaries → Exec (Launch W) Response
  unfolding ensure_directories
  launch_installed necessaries = do
    ensure_directories necessaries
    entry ← resolve_patch launcher.sources necessaries none (of_entry inst.entry)
    with_entry necessaries entry

  abbrev pub if_confirmed : Necessaries → Bool → Exec (Launch W) Response
  if_confirmed necessaries true = launch_installed necessaries
  if_confirmed necessaries false = do set_status "general-aborted"; pure (some failed)

  abbrev pub if_installed : Necessaries → Bool → Exec (Launch W) Response
  if_installed necessaries true = launch_installed necessaries
  if_installed necessaries false = do
    to_continue ← launcher.confirm
    if_confirmed necessaries to_continue

  abbrev pub install_archive : String → Exec (Launch W) (Option Manifest × Report)
  install_archive path =
      install_mrpack launcher.platform launcher.unpack inst.preferences.checksum path
        (directories_of launcher.host inst.id).instance_dir

  abbrev pub install : Necessaries → String → Exec (Launch W) Response
  install necessaries path = do
    installed ← attempt (install_archive path)
    if_installed necessaries (is_installed installed)

  -- `if (instance.modpackPath)`
  abbrev pub with_modpack : Necessaries → Option String → Exec (Launch W) Response
  with_modpack necessaries none = launch_installed necessaries
  with_modpack necessaries (some path) =
      if str_eq path "" then launch_installed necessaries else install necessaries path

  abbrev pub with_account : Option Account → Necessaries → Exec (Launch W) Response
  with_account none necessaries = pure (some failed)
  with_account (some account) necessaries = with_modpack necessaries inst.modpack_path

  abbrev pub with_necessaries : Option Necessaries → Exec (Launch W) Response
  with_necessaries none = pure (some failed)
  with_necessaries (some necessaries) = do
    modify (hold_account necessaries)
    with_account necessaries.account necessaries

  unfoldable pub handle_launch : Exec (Launch W) Response
  unfolding launch_installed download_all start_game
  handle_launch = do
    necessaries ← extract_pre_launch_information launcher.host inst.preferences inst.id
    with_necessaries necessaries
